-- ===== src/Secrets/Deleting.antt =====
-- internal/secrets/service.go: what Delete does, on every branch.
use runspace.Prelude.{
  ◌≡◌, refl, sym, ap, ◌∙◌, inl, inr, String, Bool, true, false, ◌&&◌, ◌||◌, Option, none, some,
  arith, is_some, ◌==◌, eq_iff, Bool-cases, Option-cases, if◌then◌else◌,
}
use runspace.Text.{trim_space}
use runspace.Dict
use runspace.Dict.{Dict, get-put, get-remove, get-empty}
use runspace.Errors.{ok, err, secrets_not_found, Result-cases}
use runspace.Collaboration.Model.{Channel}
use runspace.Secrets.Model.{DurableStore, Sealed, Service, secrets_of, or_no_secrets}
use runspace.Secrets.{answer, delete_value, authorize, delete_durable, delete}

delete_value-get :
    (id name : String) (values : Dict (Dict Sealed)) (j n : String)
    → Dict.get (or_no_secrets (Dict.get (delete_value id name values) j)) n
      ≡ (if (id == j) && (name == n) then none else Dict.get (or_no_secrets (Dict.get values j)) n)
delete_value-get id name values j n = elim (Option-cases (Dict.get values id)) [
  | inl absent ↦
      rw (absent, delete_value)
        (elim (Bool-cases (id == j)) [
          | inl here ↦
              let there : Dict.get values j ≡ none =
                ap (Dict.get values) (sym ((eq_iff id j).0 here)) ∙ absent in
              rw (here, there) rw get-empty ground arith
          | inr away ↦ rw away refl
        ])
  | inr (inner, there) ↦
      rw (there, delete_value) rw get-put
        (elim (Bool-cases (id == j)) [
          | inl here ↦
              let there' : Dict.get values j ≡ some inner =
                ap (Dict.get values) (sym ((eq_iff id j).0 here)) ∙ there in
              rw (here, there') (get-remove inner name n)
          | inr away ↦ rw away refl
        ])
]

module _ {W : Type 0} where
  -- Whether the durable store has deleted the secret.
  abbrev pub deleted_in : Option (DurableStore W) → String → String → W → Bool
  deleted_in none id name w = false
  deleted_in (some durable) id name w = is_some (answer (durable.delete_encrypted id name w).0)

  delete_durable-result :
      (id name : String) (found : Bool) (store : Option (DurableStore W)) (s : Service W)
      → ((delete_durable id name found store s).0
          ≡ (if found || deleted_in store id name s.world then ok tt else err secrets_not_found))
        × ((delete_durable id name found store s).1.values ≡ s.values)
  unfolding delete_durable
  delete_durable-result id name true none s = (refl, refl)
  delete_durable-result id name false none s = (refl, refl)
  delete_durable-result id name found (some durable) s =
      elim (Result-cases (durable.delete_encrypted id name s.world).0) [
        | inl (_, done) ↦ rw done (ground arith, ground arith)
        | inr (e, failed) ↦ rw failed (ground arith, ground arith)
      ]

  -- `Delete` by who may write to the channel: the service forgets the secret of that channel and name
  -- and no other, and the call succeeds exactly if the service knew the secret or the durable store
  -- has deleted it. So it succeeds too where the service knew it and the durable store fails.
  pub delete_lem :
      (user_id id name : String) (s u : Service W) (c : Channel)
      → authorize user_id id true s ≡ (ok c, u)
      → let (r, t) = delete user_id id name s in
        let known = is_some (Dict.get (secrets_of c.id u) (trim_space name)) in
        (r ≡ (
          if known || deleted_in u.durable c.id (trim_space name) u.world
          then ok tt
          else err secrets_not_found))
        × ((j n : String)
            → Dict.get (secrets_of j t) n ≡ (
                if (c.id == j) && (trim_space name == n)
                then none
                else Dict.get (secrets_of j u) n))
  unfolding delete
  delete_lem user_id id name s u c allowed =
      let found = is_some (Dict.get (secrets_of c.id u) (trim_space name)) in
      let (result, values) =
        delete_durable-result c.id (trim_space name) found u.durable
          (record u { values = delete_value c.id (trim_space name) u.values }) in
      rw allowed (
        result,
        λ j n.
            ap (λ d. Dict.get (or_no_secrets (Dict.get d j)) n) values
            ∙ delete_value-get c.id (trim_space name) u.values j n,
      )
