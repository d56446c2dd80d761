-- ===== src/Secrets/Climbing.antt =====
-- internal/secrets/service.go: the loop of Resolve up the parents of a channel, where the channels form
-- a tree. The loop of List is not here.
use runspace.Prelude.{
  ℕ, zero, suc, ◌<◌, ◌≡◌, refl, sym, ap, ◌∙◌, ◌⊎◌, inl, inr, String, true, false, Option, none,
  some, arith, is_empty, Bool-cases,
}
use runspace.Text.{trim_space}
use runspace.Dict
use runspace.Dict.{Dict}
use runspace.Errors.{Result, ok, err, Result-cases, secrets_not_found, secrets_invalid}
use runspace.Exec.{continue, pure, gets, ◌>>=◌}
use runspace.Collaboration.Model.{Channel}
use runspace.Secrets.Model.{
  ChannelResolver, Authorizer, DurableStore, Sealed, Crypto, Service, secrets_of, open_secret,
}
use runspace.Secrets.{
  answer, round_end, authorize, allow, parent, open_answer, resolve_durable, resolve_local,
  resolve_at, resolve_from, resolve, resolve_authorized,
}

-- A channel's parent has a lower rank.
abbrev pub Descends : (String → ℕ) → Channel → Type 0
Descends rank c = (is_empty c.parent_id ≡ true) ⊎ (rank c.parent_id < rank c.id)

-- In worlds where `Holds`, which the calls keep, a channel that is answered for has the id that was
-- asked for and descends.
pub record IsTree {W : Type 0} (Holds : W → Type 0) (rank : String → ℕ)
    (channels : ChannelResolver W) (auth : Authorizer W) (durable : Option (DurableStore W))
    : Type 0 where
  pub answers :
      (user_id id : String) (w : W) (c : Channel)
      → Holds w
      → (channels.get_channel user_id id w).0 ≡ ok c
      → (c.id ≡ id) × Descends rank c
  pub found : (user_id id : String) (w : W) → Holds w → Holds (channels.get_channel user_id id w).1
  pub read :
      (workspace_id user_id : String) (w : W)
      → Holds w
      → Holds (auth.can_read workspace_id user_id w).1
  pub resolved :
      (store : DurableStore W) (id name : String) (w : W)
      → durable ≡ some store
      → Holds w
      → Holds (store.resolve_encrypted id name w).1

module _ {W : Type 0} (Holds : W → Type 0) (rank : String → ℕ) (channels : ChannelResolver W)
    (auth : Authorizer W) (durable : Option (DurableStore W))
    (tree : IsTree Holds rank channels auth durable) where
  pub record IsReady (s : Service W) : Type 0 where
    pub holds : Holds s.world
    pub channels_kept : s.channels ≡ channels
    pub auth_kept : s.auth ≡ auth
    pub durable_kept : s.durable ≡ durable

  -- The next channel of the loop is lower.
  abbrev IsNext : Channel → Option Channel → Type 0
  IsNext c none = Unit {0}
  IsNext c (some d) = (rank d.id < rank c.id) × Descends rank d

  parent-IsReady :
      (user_id : String) (c : Channel) (s : Service W)
      → IsReady s
      → Descends rank c
      → IsReady (parent user_id c s).1 × IsNext c (parent user_id c s).0
  unfolding parent
  parent-IsReady user_id c s ready (inl root) = rw root (ready, tt)
  parent-IsReady user_id c s ready (inr lower) = elim (Bool-cases (is_empty c.parent_id)) [
    | inl root ↦ rw root (ready, tt)
    | inr child ↦ rw child (
      record {
        holds = rw ready.channels_kept (tree.found user_id c.parent_id s.world ready.holds);
        channels_kept = ready.channels_kept;
        auth_kept = ready.auth_kept;
        durable_kept = ready.durable_kept;
      },
      next (s.channels.get_channel user_id c.parent_id s.world).0 refl,
    )
  ]
    where
      next :
          (r : Result Channel)
          → (s.channels.get_channel user_id c.parent_id s.world).0 ≡ r
          → IsNext c (answer r)
      next (err e) h = tt
      next (ok d) h =
          let (same, descends) = tree.answers user_id c.parent_id s.world d ready.holds (
            ap (λ (x : ChannelResolver W). (x.get_channel user_id c.parent_id s.world).0)
              (sym ready.channels_kept)
            ∙ h) in
          (rw same lower, descends)

  module _ (crypto : Crypto W) where
    open_secret-state : (sealed : _) (s : Service W) → (open_secret crypto sealed s).1 ≡ s
    unfolding open_secret
    open_secret-state sealed s = elim (Result-cases (crypto.new_gcm s.key)) [
      | inl (gcm, e) ↦ rw e refl
      | inr (x, e) ↦ rw e refl
    ]

    opened :
        (r : Result String) (s : Service W)
        → IsReady s
        → IsReady (continue r (λ value. pure (some value)) s).1
    opened (ok value) s ready = ready
    opened (err e) s ready = ready

    open_answer-IsReady : (r : _) (s : Service W) → IsReady s → IsReady (open_answer crypto r s).1
    unfolding open_answer
    open_answer-IsReady (err e) s ready = ready
    open_answer-IsReady (ok sealed) s ready =
        opened (open_secret crypto sealed s).0 (open_secret crypto sealed s).1
          (rw open_secret-state ready)

    resolve_at-IsReady :
        (name : String) (c : Channel) (s : Service W)
        → IsReady s
        → IsReady (resolve_at crypto name c s).1
    unfolding resolve_at
    resolve_at-IsReady name c s ready = local (Dict.get (secrets_of c.id s) name)
      where
        stored :
            (store : Option (DurableStore W))
            → s.durable ≡ store
            → IsReady (resolve_durable crypto c.id name store s).1
        stored none e = ready
        stored (some store) e =
            open_answer-IsReady (store.resolve_encrypted c.id name s.world).0
              (record s { world = (store.resolve_encrypted c.id name s.world).1 })
              (record {
                holds =
                    tree.resolved store c.id name s.world (sym ready.durable_kept ∙ e) ready.holds;
                channels_kept = ready.channels_kept;
                auth_kept = ready.auth_kept;
                durable_kept = ready.durable_kept;
              })

        local : (item : Option Sealed) → IsReady (resolve_local crypto c.id name item s).1
        local none = stored s.durable refl
        local (some item) =
            opened (open_secret crypto item.sealed s).0 (open_secret crypto item.sealed s).1
              (rw open_secret-state ready)

    abbrev Ends : {A : Type 0} → Option (A × Service W) → Type 0
    Ends {A} o = (a : A) × (t : Service W) × (o ≡ some (a, t))

    round_end-Ends :
        (r : Result (Option String)) (rest : Option (Result String × Service W)) (t : Service W)
        → Ends rest
        → Ends (round_end r rest t)
    round_end-Ends (err e) rest t ends = (err e, t, refl)
    round_end-Ends (ok (some value)) rest t ends = (ok value, t, refl)
    round_end-Ends (ok none) rest t ends = ends

    -- Fuel above the rank of the channel is enough.
    abbrev Fits : ℕ → Option Channel → Type 0
    Fits fuel none = Unit {0}
    Fits fuel (some c) = (rank c.id < fuel) × Descends rank c

    IsNext-Fits :
        (fuel : ℕ) (c : Channel) (next : Option Channel)
        → rank c.id < suc fuel
        → IsNext c next
        → Fits fuel next
    IsNext-Fits fuel c none h n = tt
    IsNext-Fits fuel c (some d) h (lower, descends) = (omega arith, descends)

    resolve_from-Ends :
        (fuel : ℕ) (user_id name : String) (c : Option Channel) (s : Service W)
        → IsReady s
        → Fits fuel c
        → Ends (resolve_from crypto fuel user_id name c s)
    unfolding resolve_from
    resolve_from-Ends fuel user_id name none s ready fits = (err secrets_not_found, s, refl)
    resolve_from-Ends zero user_id name (some c) s ready fits = absurd (omega (arith, fits.0))
    resolve_from-Ends (suc fuel) user_id name (some c) s ready fits =
        let t = (resolve_at crypto name c s).1 in
        let (ready', next) =
          parent-IsReady user_id c t (resolve_at-IsReady name c s ready) fits.1 in
        round_end-Ends (resolve_at crypto name c s).0 _ t (
          resolve_from-Ends fuel user_id name (parent user_id c t).0 (parent user_id c t).1 ready'
            (IsNext-Fits fuel c (parent user_id c t).0 fits.0 next))

    authorize-IsReady :
        (user_id id : String) (s : Service W)
        → IsReady s
        → IsReady (authorize user_id id false s).1
          × ((c : Channel)
              → (authorize user_id id false s).0 ≡ ok c
              → (c.id ≡ id) × Descends rank c)
    unfolding authorize allow
    authorize-IsReady user_id id s ready =
        after (s.channels.get_channel user_id id s.world).0
          (record s { world = (s.channels.get_channel user_id id s.world).1 })
          (record {
            holds = rw ready.channels_kept (tree.found user_id id s.world ready.holds);
            channels_kept = ready.channels_kept;
            auth_kept = ready.auth_kept;
            durable_kept = ready.durable_kept;
          })
          (λ c h. tree.answers user_id id s.world c ready.holds (
            ap (λ (x : ChannelResolver W). (x.get_channel user_id id s.world).0)
              (sym ready.channels_kept)
            ∙ h))
      where
        Fine : Result Channel × Service W → Type 0
        Fine p = IsReady p.1 × ((c : Channel) → p.0 ≡ ok c → (c.id ≡ id) × Descends rank c)

        asked :
            (c : Channel) (r : Result (Unit {0})) (t : Service W)
            → IsReady t
            → (c.id ≡ id) × Descends rank c
            → Fine (continue r (λ _. pure c) t)
        asked c (ok tt) t ready' fine = (ready', λ d h. let same : c ≡ d = cc h in rw (← same) fine)
        asked c (err e) t ready' fine = (ready', λ d h. absurd (cc h))

        after :
            (r : Result Channel) (t : Service W)
            → IsReady t
            → ((c : Channel) → r ≡ ok c → (c.id ≡ id) × Descends rank c)
            → Fine (
                continue r
                  (λ channel. gets (λ (u : Service W). u.auth) >>= λ a.
                    allow false a channel.workspace_id user_id >>= λ _. pure channel)
                  t)
        after (err e) t ready' fine = (ready', λ c h. absurd (cc h))
        after (ok c) t ready' fine =
            asked c (t.auth.can_read c.workspace_id user_id t.world).0
              (record t { world = (t.auth.can_read c.workspace_id user_id t.world).1 })
              (record {
                holds = rw ready'.auth_kept (tree.read c.workspace_id user_id t.world ready'.holds);
                channels_kept = ready'.channels_kept;
                auth_kept = ready'.auth_kept;
                durable_kept = ready'.durable_kept;
              })
              (fine c refl)

    -- Where the channels form a tree, with ranks that fall from a channel to its parent, `Resolve` of a
    -- secret comes to an end, with a value or an error: as many rounds as the rank of the channel and
    -- one are enough.
    pub resolve_ends :
        (fuel : ℕ) (user_id id name : String) (s : Service W)
        → IsReady s
        → rank id < fuel
        → (r : Result String) × (t : Service W) × (resolve crypto fuel user_id id name s
            ≡ some (r, t))
    unfolding resolve
    resolve_ends fuel user_id id name s ready enough =
        let (ready', fine) = authorize-IsReady user_id id s ready in
        authorized (authorize user_id id false s).0 (authorize user_id id false s).1 ready' fine
      where
        authorized :
            (r : Result Channel) (t : Service W)
            → IsReady t
            → ((c : Channel) → r ≡ ok c → (c.id ≡ id) × Descends rank c)
            → Ends (resolve_authorized crypto fuel user_id (trim_space name) r t)
        authorized (err e) t ready' fine = (err e, t, refl)
        authorized (ok c) t ready' fine = elim (Bool-cases (is_empty (trim_space name))) [
          | inl blank ↦ (err secrets_invalid, t, rw blank refl)
          | inr named ↦
              let (same, descends) = fine c refl in
              rw named (
                resolve_from-Ends fuel user_id (trim_space name) (some c) t ready'
                  (rw same enough, descends))
        ]
