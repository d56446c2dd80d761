-- ===== src/Text/Tests.antt =====
-- Stamps of known instants.
use runspace.Prelude.{◌≡◌, refl}
use runspace.Text.Stamp.{time_stamp}

epoch : time_stamp 62135596800000000000 ≡ "19700101000000"
unfolding time_stamp
epoch = refl

leap_day : time_stamp 63844847999999999999 ≡ "20240229235959"
unfolding time_stamp
leap_day = refl

end_of_century : time_stamp 66269577599000000000 ≡ "21001231235959"
unfolding time_stamp
end_of_century = refl
