-- ===== src/Secrets/Sealing.antt =====
-- internal/secrets/service.go: a secret that is set is the one that is resolved.
use runspace.Prelude.{
  ℕ, suc, ◌≡◌, refl, sym, ap, ◌∙◌, String, Bool, true, false, ◌||◌, Option, none, some, List, ◌++◌,
  arith, is_empty, ltb, length, length-append, take-append, drop-append, eq_refl,
}
use runspace.Text.{trim_space}
use runspace.Dict
use runspace.Dict.{Dict, get-put}
use runspace.Errors.{ok, secrets_invalid}
use runspace.Exec.{Exec, lift, gets, bind-ok, ◌>>=◌, fail_if, modify}
use runspace.Collaboration.Model.{Channel}
use runspace.Secrets.Model.{
  Aead, Crypto, DurableStore, Sealed, Service, secrets_of, call, seal, open_with, open_secret,
  read_clock, or_no_secrets,
}
use runspace.Secrets.{
  authorize, allow, save_durable, set, resolve_at, resolve_local, resolve_from, resolve,
}

-- What the cipher promises: it opens what it has sealed with the same nonce, and rand.Read gives as
-- many bytes as it was asked for.
pub record IsCipher {W : Type 0} (crypto : Crypto W) (gcm : Aead) : Type 0 where
  pub opens :
      (nonce : List ℕ) (value : String) → gcm.open_sealed nonce (gcm.seal nonce value) ≡ ok value
  pub sized :
      (n : ℕ) (nonce : List ℕ) (w w' : W) → crypto.random n w ≡ (ok nonce, w') → length nonce ≡ n

module _ {W : Type 0} (crypto : Crypto W) (gcm : Aead) (cipher : IsCipher crypto gcm) where
  open_with-seal :
      (nonce : List ℕ) (value : String)
      → length nonce ≡ gcm.nonce_size
      → open_with crypto gcm (nonce ++ gcm.seal nonce value) ≡ ok value
  open_with-seal nonce value size =
      let long : ltb (length (nonce ++ gcm.seal nonce value)) gcm.nonce_size ≡ false =
        ground (arith, length-append nonce (gcm.seal nonce value)) in
      rw long rw (← size) rw (take-append, drop-append) (cipher.opens nonce value)

  seal-opens :
      (value : String) (s t : Service W) (sealed : List ℕ)
      → crypto.new_gcm s.key ≡ ok gcm
      → seal crypto value s ≡ (ok sealed, t)
      → (t.values ≡ s.values) × (t.key ≡ s.key) × (open_with crypto gcm sealed ≡ ok value)
  unfolding seal
  seal-opens value s t sealed known h =
      let (g, s1, e1, h1) = bind-ok (lift (crypto.new_gcm s.key)) _ s t sealed h in
      let same : g ≡ gcm = cc (ap (λ p. p.0) e1, known) in
      let (nonce, s2, e2, h2) = bind-ok (call (crypto.random g.nonce_size)) _ s1 t sealed h1 in
      let size : length nonce ≡ g.nonce_size =
        cipher.sized g.nonce_size nonce s1.world s2.world (λ i. ((e2 i).0, (e2 i).1.world)) in
      let is : (nonce ++ g.seal nonce value) ≡ sealed = cc (ap (λ p. p.0) h2) in
      (
        ap (λ p. p.1.values) (sym h2)
            ∙ ap (λ p. p.1.values) (sym e2)
            ∙ ap (λ p. p.1.values) (sym e1),
        ap (λ p. p.1.key) (sym h2) ∙ ap (λ p. p.1.key) (sym e2) ∙ ap (λ p. p.1.key) (sym e1),
        rw (← is) rw same
            (open_with-seal nonce value (size ∙ ap (λ (a : Aead). a.nonce_size) same)),
      )

module _ {W : Type 0} where
  -- What an operation leaves alone that stores no secret.
  record Keeps (s t : Service W) : Type 0 where
    values : t.values ≡ s.values
    key : t.key ≡ s.key

  Keeps-trans : {s t u : Service W} → Keeps s t → Keeps t u → Keeps s u
  Keeps-trans p q = record { values = q.values ∙ p.values; key = q.key ∙ p.key }

  authorize-Keeps :
      (user_id id : String) (write : Bool) (s t : Service W) (c : Channel)
      → authorize user_id id write s ≡ (ok c, t)
      → Keeps s t
  unfolding authorize
  authorize-Keeps user_id id write s t c h =
      let (d, u, e, rest) = bind-ok (call (s.channels.get_channel user_id id)) _ s t c h in
      let (_, v, e', end) = bind-ok (allow write u.auth d.workspace_id user_id) _ u t c rest in
      Keeps-trans {t = u}
        (record { values = ap (λ p. p.1.values) (sym e); key = ap (λ p. p.1.key) (sym e) })
        (Keeps-trans {t = v} (asked write u v d e')
          (record { values = ap (λ p. p.1.values) (sym end); key = ap (λ p. p.1.key) (sym end) }))
    where
      asked :
          (b : Bool) (x y : Service W) (d : Channel)
          → allow b x.auth d.workspace_id user_id x ≡ (ok tt, y)
          → Keeps x y
      asked true x y d h' = record {
        values = ap (λ p. p.1.values) (sym h');
        key = ap (λ p. p.1.key) (sym h');
      }
      asked false x y d h' = record {
        values = ap (λ p. p.1.values) (sym h');
        key = ap (λ p. p.1.key) (sym h');
      }

  save_durable-Keeps :
      (id name : String) (sealed : List ℕ) (now : ℕ) (store : Option (DurableStore W))
      (s t : Service W)
      → save_durable id name sealed now store s ≡ (ok tt, t)
      → Keeps s t
  unfolding save_durable
  save_durable-Keeps id name sealed now none s t h = record {
    values = ap (λ p. p.1.values) (sym h);
    key = ap (λ p. p.1.key) (sym h);
  }
  save_durable-Keeps id name sealed now (some store) s t h = record {
    values = ap (λ p. p.1.values) (sym h);
    key = ap (λ p. p.1.key) (sym h);
  }

  -- The end of `Set`, from what is sealed.
  put_away :
      (id name : String) (sealed : List ℕ) (s t : Service W)
      → (read_clock >>= λ now.
            modify (λ (x : Service W). record x {
              values =
                  Dict.put x.values id
                    (Dict.put (secrets_of id x) name (record { sealed = sealed; updated = now }));
            })
            >>= λ _. gets (λ (x : Service W). x.durable) >>= λ durable.
                save_durable id name sealed now durable)
          s
        ≡ (ok tt, t)
      → (item : Sealed) × (Dict.get (secrets_of id t) name ≡ some item)
        × (item.sealed ≡ sealed)
        × (t.key ≡ s.key)
  put_away id name sealed s t h =
      let (now, w) = s.clock s.world in
      let item : Sealed = record { sealed = sealed; updated = now } in
      let values = Dict.put s.values id (Dict.put (secrets_of id s) name item) in
      let kept =
        save_durable-Keeps id name sealed now s.durable (record s { world = w; values = values }) t
          h in
      (
        item,
        ap (λ d. Dict.get (or_no_secrets (Dict.get d id)) name) kept.values
            ∙ rw (get-put, eq_refl id) rw (get-put, eq_refl name) refl,
        refl,
        kept.key,
      )

module _ {W : Type 0} (crypto : Crypto W) (gcm : Aead) (cipher : IsCipher crypto gcm) where
  -- What `Set` has stored.
  set-stored :
      (user_id id name value : String) (s u t : Service W) (c : Channel)
      → crypto.new_gcm s.key ≡ ok gcm
      → authorize user_id id true s ≡ (ok c, u)
      → set crypto user_id id name value s ≡ (ok tt, t)
      → (item : Sealed) × (Dict.get (secrets_of c.id t) (trim_space name) ≡ some item)
        × (open_with crypto gcm item.sealed ≡ ok value)
        × (t.key ≡ s.key)
        × (is_empty (trim_space name) ≡ false)
  unfolding set
  set-stored user_id id name value s u t c known authorized h =
      let (d, s1, e1, h1) = bind-ok (authorize user_id id true) _ s t tt h in
      let same : d ≡ c = cc (ap (λ p. p.0) e1, ap (λ p. p.0) authorized) in
      let (valid, h2) = checked (is_empty (trim_space name)) (is_empty value) _ s1 t h1 in
      let (sealed, s2, e2, h3) = bind-ok (seal crypto value) _ s1 t tt h2 in
      let kept = authorize-Keeps user_id id true s s1 d e1 in
      let (values, key, opens) =
        seal-opens crypto gcm cipher value s1 s2 sealed (ap crypto.new_gcm kept.key ∙ known) e2 in
      let (item, there, bytes, key') = put_away d.id (trim_space name) sealed s2 t h3 in
      (
        item,
        ap (λ (x : Channel). Dict.get (secrets_of x.id t) (trim_space name)) (sym same) ∙ there,
        ap (open_with crypto gcm) bytes ∙ opens,
        key' ∙ key ∙ kept.key,
        valid,
      )
    where
      checked :
          (a b : Bool) (k : Exec (Service W) (Unit {0})) (x y : Service W)
          → (fail_if (a || b) secrets_invalid >>= λ _. k) x ≡ (ok tt, y)
          → (a ≡ false) × (k x ≡ (ok tt, y))
      checked true b k x y h' = absurd (cc (ap (λ p. p.0) h'))
      checked false true k x y h' = absurd (cc (ap (λ p. p.0) h'))
      checked false false k x y h' = (refl, h')

  resolve_at-stored :
      (name value : String) (c : Channel) (item : Sealed) (s : Service W)
      → crypto.new_gcm s.key ≡ ok gcm
      → Dict.get (secrets_of c.id s) name ≡ some item
      → open_with crypto gcm item.sealed ≡ ok value
      → resolve_at crypto name c s ≡ (ok (some value), s)
  unfolding resolve_at open_secret
  resolve_at-stored name value c item s known there opens =
      rw (there, resolve_local) rw known rw opens refl

  -- With a cipher that opens what it has sealed, a secret that was set with success is the one that
  -- `Resolve` gives to who may read the channel, in its first round: whatever the parents' secrets, the
  -- durable store and the secret that was there before.
  pub resolve-set :
      (fuel : ℕ) (user_id reader id name value : String) (s u t v : Service W) (c d : Channel)
      → crypto.new_gcm s.key ≡ ok gcm
      → authorize user_id id true s ≡ (ok c, u)
      → set crypto user_id id name value s ≡ (ok tt, t)
      → authorize reader id false t ≡ (ok d, v)
      → d.id ≡ c.id
      → resolve crypto (suc fuel) reader id name t ≡ some (ok value, v)
  unfolding resolve resolve_from
  resolve-set fuel user_id reader id name value s u t v c d known writes done reads same =
      let (item, there, opens, key, named) =
        set-stored user_id id name value s u t c known writes done in
      let kept = authorize-Keeps reader id false t v d reads in
      let there' : Dict.get (secrets_of d.id v) (trim_space name) ≡ some item =
        ap (λ k. Dict.get (secrets_of k v) (trim_space name)) same
        ∙ ap (λ m. Dict.get (or_no_secrets (Dict.get m c.id)) (trim_space name)) kept.values
        ∙ there in
      rw reads rw named rw
        (resolve_at-stored (trim_space name) value d item v
          (ap crypto.new_gcm (kept.key ∙ key) ∙ known) there' opens)
        refl
