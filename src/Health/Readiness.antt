-- ===== src/Health/Readiness.antt =====
-- How often and how long a database is asked for, and when a service is ready.
use rt_financial_anomaly_det.Prelude.{
  ℕ, zero, suc, ◌+◌, ◌*◌, ◌<◌, ◌≡◌, ◌≢◌, ◌↔◌, ◌⊎◌, inl, inr, refl, sym, ap, ◌∙◌, arith, Bool, true,
  false, ◌&&◌, Bool-cases, ◌==◌,
}
use rt_financial_anomaly_det.Health.{
  Ping, answered, raised, ping_loop, ping_database, Redis, not_initialized, client,
  database_healthy, redis_healthy, status_of, respond, gateway_readyz, processor_readyz,
  publisher_readyz,
}

-- the backoff after so many failures
abbrev pub doubled : ℕ → ℕ → ℕ
doubled zero initial = initial
doubled (suc failures) initial = doubled failures initial * 2

module _ (connects : ℕ → Bool) (max_retries initial : ℕ) where
  -- The first attempt that succeeds, after the failures before it, and the waiting up to it.
  abbrev pub Succeeds : Ping × ℕ → Type 0
  Succeeds o =
      (failures : ℕ) × (failures < max_retries)
      × (connects (suc failures) ≡ true)
      × ((k : ℕ) → k < failures → connects (suc k) ≡ false)
      × (o.0 ≡ answered true)
      × (o.1 + initial ≡ doubled failures initial)

  -- No attempt succeeds.
  abbrev pub Fails : Ping × ℕ → Type 0
  Fails o =
      ((k : ℕ) → k < max_retries → connects (suc k) ≡ false)
      × (o.0 ≡ raised)
      × ((last : ℕ) × (max_retries ≡ suc last) × (o.1 + initial ≡ doubled last initial))

  extend :
      (failures : ℕ)
      → ((k : ℕ) → k < failures → connects (suc k) ≡ false)
      → connects (suc failures) ≡ false
      → (k : ℕ) → k < suc failures
      → connects (suc k) ≡ false
  extend failures before now k h = elim (Bool-cases (k == failures)) [
    | inl same ↦ let e : k ≡ failures = ground arith in ap (λ i. connects (suc i)) e ∙ now
    | inr other ↦ before k (ground arith)
  ]

  plus_one : (n : ℕ) → n + 1 ≡ suc n
  plus_one n = omega arith

  loop-cases :
      (left failures waited : ℕ)
      → failures + suc left ≡ max_retries
      → ((k : ℕ) → k < failures → connects (suc k) ≡ false)
      → waited + initial ≡ doubled failures initial
      → let o =
          ping_loop connects max_retries
            (suc left)
            (suc failures)
            (doubled failures initial)
            waited in
        Succeeds o ⊎ Fails o
  unfolding ping_loop
  loop-cases zero failures waited total before time = elim (Bool-cases (connects (suc failures))) [
    | inl good ↦ rw good (inl (failures, omega arith, good, before, refl, time))
    | inr bad ↦
        let last : (suc failures == max_retries) ≡ true = ground arith in
        rw (bad, last)
          (inr (
            (λ k h. extend failures before bad k (omega arith)),
            refl,
            (failures, sym total ∙ plus_one failures, time),
          ))
  ]
  loop-cases (suc left) failures waited total before time =
      elim (Bool-cases (connects (suc failures))) [
        | inl good ↦ rw good (inl (failures, omega arith, good, before, refl, time))
        | inr bad ↦
            let more : (suc failures == max_retries) ≡ false = ground arith in
            rw (bad, more)
              (loop-cases left (suc failures) (waited + doubled failures initial) (omega arith)
                (extend failures before bad) (omega arith))
      ]

-- An initialised database is tried up to `max_retries` times, where that is not zero: the answer is
-- True at the first attempt that succeeds, and an exception if none does, never False. The wait
-- between two attempts doubles: the whole wait and the initial backoff together are the initial
-- backoff, doubled once for each failed attempt that another one follows.
pub ping_database_effect :
    (connects : ℕ → Bool) (max_retries initial : ℕ)
    → 0 < max_retries
    → let o = ping_database connects max_retries true initial in
      Succeeds connects max_retries initial o ⊎ Fails connects max_retries initial o
unfolding ping_database
ping_database_effect connects zero initial h = absurd (omega arith)
ping_database_effect connects (suc n) initial h =
    loop-cases connects (suc n) initial n 0 0 (omega arith) (λ k lt. absurd (omega arith))
      (omega arith)

-- Some attempt succeeds.
abbrev pub Reached : (ℕ → Bool) → ℕ → Type 0
Reached connects max_retries = (k : ℕ) × (k < max_retries) × (connects (suc k) ≡ true)

and_pair : (a b : Bool) → (a && b) ≡ true → (a ≡ true) × (b ≡ true)
and_pair true b h = (refl, h)
and_pair false b h = cc

pair_and : (a b : Bool) → (a ≡ true) × (b ≡ true) → (a && b) ≡ true
pair_and a b (x, y) = rw (x, y) refl

status_healthy : (is_healthy : Bool) → (status_of is_healthy ≡ 200) ↔ (is_healthy ≡ true)
status_healthy true = ((λ e. refl), (λ e. refl))
status_healthy false = ((λ e. absurd (omega (arith, e))), (λ e. cc))

redis_present : (redis : Redis) → (redis_healthy redis ≡ true) ↔ (redis ≢ client false)
redis_present not_initialized = ((λ e x. cc), (λ ne. refl))
redis_present (client true) = ((λ e x. cc), (λ ne. refl))
redis_present (client false) = ((λ e x. cc), (λ ne. absurd (ne refl)))

module _ (connects : ℕ → Bool) (max_retries initial : ℕ) (some_retries : 0 < max_retries)
    (initialized : Bool) where
  abbrev ping : Ping
  ping = (ping_database connects max_retries initialized initial).0

  abbrev Up : Type 0
  Up = (initialized ≡ true) × Reached connects max_retries

  ping_up : (database_healthy ping ≡ true) ↔ Up
  unfolding ping_database
  ping_up = elim (Bool-cases initialized) [
    | inr cold ↦ rw cold ((λ e. cc), (λ u. cc))
    | inl warm ↦ elim (ping_database_effect connects max_retries initial some_retries) [
      | inl (k, few, good, before, answer, time) ↦
          rw warm ((λ e. (refl, (k, few, good))), (λ u. ap database_healthy answer))
      | inr (bad, answer, time) ↦ rw warm (
        (λ e. absurd (ground (arith, ap database_healthy answer, e))),
        (λ u. let (w, (k, few, good)) = u in absurd (ground (arith, bad k few, good))),
      )
    ]
  ]

  -- With at least one retry: a probe answers 200 exactly if the database was initialised and some
  -- attempt at it succeeds, Redis answers, where there is a client, and, in the processor, the model
  -- is loaded. A gateway without a client of Redis counts as ready.
  pub readyz_ready :
      (redis : Redis) (pong model_loaded : Bool)
      → ((gateway_readyz ping redis).status_code ≡ 200 ↔ (Up × (redis ≢ client false)))
        × ((processor_readyz model_loaded ping pong).status_code ≡ 200
            ↔ (Up × (pong ≡ true) × (model_loaded ≡ true)))
        × ((publisher_readyz ping pong).status_code ≡ 200 ↔ (Up × (pong ≡ true)))
  unfolding gateway_readyz processor_readyz publisher_readyz respond
  readyz_ready redis pong model_loaded =
      let up = ping_up in
      let r = redis_present redis in
      (
        (
          (λ e. let (d, c) = and_pair _ _ ((status_healthy _).0 e) in (up.0 d, r.0 c)),
          (λ h. (status_healthy _).1 (pair_and _ _ (up.1 h.0, r.1 h.1))),
        ),
        (
          (λ e.
              let (c, m) = and_pair _ _ ((status_healthy _).0 e) in
              let (d, p) = and_pair _ _ c in (up.0 d, p, m)),
          (λ h.
              let (u, p, m) = h in
              (status_healthy (database_healthy ping && pong && model_loaded)).1
                (pair_and _ _ (pair_and _ _ (up.1 u, p), m))),
        ),
        (
          (λ e. let (d, p) = and_pair _ _ ((status_healthy _).0 e) in (up.0 d, p)),
          (λ h. (status_healthy _).1 (pair_and _ _ (up.1 h.0, h.1))),
        ),
      )
