-- ===== src/Clusters/Tokens.antt =====
-- The bootstrap token of a cluster: controllers/cluster/bootstrap_token.go.
use lieutenant_operator.Prelude.{
  ℕ, String, ◌≡◌, refl, ap, ◌∙◌, Bool-cases, inl, inr, Bool, true, false, not, ◌&&◌, Option, none,
  some, List, [], ◌∷◌, arith, ltb, ◌==◌, if◌then◌else◌,
}
use lieutenant_operator.Errors.{Outcome, ok, err, msg, wrap}
use lieutenant_operator.Api.Cluster.{Cluster, BootstrapToken}
use lieutenant_operator.Api.Object.{Object, cluster}
use lieutenant_operator.Pipeline.{Result, State, Function, continue, fail}

-- `time.Now`, an instant after a duration that is written out, and the token's random bytes in base64.
pub record Clock (W : Type 0) : Type 0 where
  pub now : W → ℕ
  pub after : String → ℕ → Outcome ℕ
  pub generate_token : W → Outcome String × W

abbrev pub set_token : BootstrapToken → Cluster → Cluster
set_token t c = record c { status = record (c.status) { bootstrap_token = some t } }

abbrev pub life_time : Cluster → String
life_time c = if c.spec.token_life_time == "" then "24h" else c.spec.token_life_time

unfoldable pub check_expiry : ℕ → BootstrapToken → BootstrapToken
check_expiry now t = if ltb t.valid_until now then record t { token_valid = false } else t

abbrev pub token_in : Object → Option BootstrapToken
token_in (cluster c) = c.status.bootstrap_token
token_in _ = none

and_false : (b : Bool) → (b && false) ≡ false
and_false b = ground (arith)

and_true : (b : Bool) → (b && true) ≡ b
and_true b = ground (arith)

module _ {W : Type 0} (clock : Clock W) where
  -- `newClusterStatus`: the token, if there is none.
  unfoldable pub new_token : Cluster → W → Outcome BootstrapToken × W
  new_token c w = elim (clock.after (life_time c) (clock.now w)) [
    | err e ↦ (err e, w)
    | ok until ↦
        let (r, w') = clock.generate_token w in
        (
          elim r [
            | err e ↦ err e
            | ok token ↦ ok (record { token = token; valid_until = until; token_valid = true })
          ],
          w',
        )
  ]

  unfoldable pub token_of : Cluster → W → Outcome BootstrapToken × W
  unfolding new_token
  token_of c w = elim c.status.bootstrap_token [ some t ↦ (ok t, w) | none ↦ new_token c w ]

  unfoldable pub noted : State W → Cluster → Outcome BootstrapToken × W → Result × State W
  unfolding check_expiry
  noted s c (err e, w) = (fail (wrap "setting initial status on cluster" e), record s { world = w })
  noted s c (ok t, w) =
      (continue, record s { obj = cluster (set_token (check_expiry (clock.now w) t) c); world = w })

  unfoldable pub set_bootstrap_token : Function W
  unfolding token_of noted
  set_bootstrap_token s = elim s.obj [
    | cluster c ↦ noted s c (token_of c s.world)
    | _ ↦ (fail (msg "not a cluster object"), s)
  ]

  -- The cluster after the step at each of these worlds in turn.
  unfoldable pub after_runs : List W → State W → State W
  unfolding set_bootstrap_token
  after_runs [] s = s
  after_runs (w ∷ ws) s = after_runs ws (set_bootstrap_token (record s { world = w })).1

  -- No run came after the token's end.
  abbrev pub all_before : ℕ → List W → Bool
  all_before until [] = true
  all_before until (w ∷ ws) = not (ltb until (clock.now w)) && all_before until ws

  token_of_lem :
      (c : Cluster) (t : BootstrapToken) (w : W)
      → c.status.bootstrap_token ≡ some t
      → token_of c w ≡ (ok t, w)
  unfolding token_of
  token_of_lem c t w b = rw (token_of, b)

  run_once :
      (s : State W) (c : Cluster) (t : BootstrapToken)
      → s.obj ≡ cluster c
      → c.status.bootstrap_token ≡ some t
      → (set_bootstrap_token s).1
        ≡ record s { obj = cluster (set_token (check_expiry (clock.now s.world) t) c) }
  unfolding set_bootstrap_token noted
  run_once s c t h b =
      rw (set_bootstrap_token, h) (ap (λ r. (noted s c r).1) (token_of_lem c t s.world b))

  -- The token of before, valid as long as none of the runs came after its end.
  abbrev pub aged : List W → BootstrapToken → BootstrapToken
  aged ws t = record t { token_valid = t.token_valid && all_before t.valid_until ws }

  aged-check_expiry :
      (w : W) (ws : List W) (t : BootstrapToken)
      → aged ws (check_expiry (clock.now w) t) ≡ aged (w ∷ ws) t
  unfolding check_expiry
  aged-check_expiry w ws t = elim (Bool-cases (ltb t.valid_until (clock.now w))) [
    | inl y ↦ rw (check_expiry, y, and_false t.token_valid)
    | inr n ↦ rw (check_expiry, n)
  ]

  -- A token is never replaced, and its end does not move. It is valid after some runs exactly if it was
  -- before and none of them came after its end, so that it is never made valid again.
  pub token_in-after_runs :
      (ws : List W) (s : State W) (c : Cluster) (t : BootstrapToken)
      → s.obj ≡ cluster c
      → c.status.bootstrap_token ≡ some t
      → token_in (after_runs ws s).obj ≡ some (aged ws t)
  unfolding after_runs
  token_in-after_runs [] s c t h b = rw (h, b, and_true t.token_valid)
  token_in-after_runs (w ∷ ws) s c t h b =
      let now = record s { world = w } in
      let t' = check_expiry (clock.now w) t in
      ap (λ x. token_in (after_runs ws x).obj) (run_once now c t h b)
      ∙ token_in-after_runs ws (record now { obj = cluster (set_token t' c) }) (set_token t' c) t'
          refl refl
      ∙ ap some (aged-check_expiry w ws t)
