-- ===== src/Delivery/Attempts.antt =====
-- webhooks/webhook.dispatcher.ts: how many attempts a delivery makes, how long it waits, and when it
-- is logged as failed.
use native.Mathlib.Nat.{pow-suc, pow-le-pow_right}
use callora_backend.Common.{
  ℕ, zero, suc, ◌+◌, ◌-◌, ◌*◌, ◌^◌, ◌≤◌, ◌<◌, ◌≡◌, refl, sym, subst, ap, ◌∙◌, ◌⊎◌, inl, inr, String,
  List, Bool, true, false, Option, none, some, ◌&&◌, sum_of, arith,
}
use callora_backend.Webhooks.{
  RetryPolicy, WebhookConfig, FailedDeliveryEntry, record_failed_delivery,
}
use callora_backend.Delivery.{
  Attempt, ok, http_error, threw, effective_of, get_effective_retry_policy, within,
  validate_retry_policy, Outcome, wait_if_left, after_attempt, attempt_loop, entry_of, log_unless,
  dispatch_webhook, default_max_retries, default_base_delay_ms, or_default,
}

abbrev pub is_ok : Attempt → Bool
is_ok ok = true
is_ok (http_error m) = false
is_ok (threw m) = false

-- A loop that began at the attempt `from` and may make `left` more: all before the last one failed,
-- the last one tells whether it delivered, and it gives up only when none is left.
pub record IsRun (fetch : ℕ → Attempt) (from left base : ℕ) (o : Outcome) : Type 0 where
  pub failed_before : (i : ℕ) → from ≤ i → i + 1 < o.attempts → is_ok (fetch i) ≡ false
  pub at_most : o.attempts ≤ from + left
  pub delivers :
      o.delivered ≡ true → (from + 1 ≤ o.attempts) × (is_ok (fetch (o.attempts - 1)) ≡ true)
  pub gives_up :
      o.delivered ≡ false
      → (o.attempts ≡ from + left) × ((i : ℕ) → from ≤ i → i < o.attempts → is_ok (fetch i) ≡ false)
  pub waits_for : sum_of (λ w. w) o.waits + base * 2 ^ from ≤ base * 2 ^ (from + left)

plus_zero : (n : ℕ) → n + zero ≡ n
plus_zero n = omega arith

plus_suc : (n k : ℕ) → n + suc k ≡ n + k + 1
plus_suc n k = omega arith

suc_plus : (n k : ℕ) → n + 1 + k ≡ n + suc k
suc_plus n k = omega arith

back : (n : ℕ) → n + 1 - 1 ≡ n
back n = omega arith

at_or_after : (n i : ℕ) → n ≤ i → (n ≡ i) ⊎ (n + 1 ≤ i)
at_or_after n i h = ground (arith, h)

power_step : (base n : ℕ) → base * 2 ^ (n + 1) ≡ base * 2 ^ n + base * 2 ^ n
power_step base n = grind (arith, ap (λ k. 2 ^ k) (successor n), pow-suc 2 n)
  where
    successor : (k : ℕ) → k + 1 ≡ suc k
    successor k = omega arith

power_mono : (base n k : ℕ) → base * 2 ^ n ≤ base * 2 ^ (n + k)
power_mono base n zero = omega (arith, ap (λ j. base * 2 ^ j) (plus_zero n))
power_mono base n (suc k) =
    omega
      (arith, power_mono base n k, power_step base (n + k), ap (λ j. base * 2 ^ j) (plus_suc n k))

wait_if_left-waits :
    (fetch : ℕ → Attempt) (from left base : ℕ) (o : Outcome)
    → sum_of (λ w. w) o.waits + base * 2 ^ (from + 1) ≤ base * 2 ^ (from + 1 + left)
    → sum_of (λ w. w) (wait_if_left left base from o).waits + base * 2 ^ from
      ≤ base * 2 ^ (from + suc left)
wait_if_left-waits fetch from zero base o h = omega (
  arith,
  h,
  power_step base from,
  ap (λ j. base * 2 ^ j) (plus_zero (from + 1)),
  ap (λ j. base * 2 ^ j) (suc_plus from zero),
)
wait_if_left-waits fetch from (suc left) base o h =
    omega (arith, h, power_step base from, ap (λ j. base * 2 ^ j) (suc_plus from (suc left)))

same_run :
    (left base from : ℕ) (o : Outcome)
    → ((wait_if_left left base from o).attempts ≡ o.attempts)
      × ((wait_if_left left base from o).delivered ≡ o.delivered)
same_run zero base from o = (refl, refl)
same_run (suc left) base from o = (refl, refl)

-- After a first attempt that failed.
failed_first :
    (fetch : ℕ → Attempt) (from left base : ℕ) (o : Outcome)
    → is_ok (fetch from) ≡ false
    → IsRun fetch (from + 1) left base o
    → IsRun fetch from (suc left) base (wait_if_left left base from o)
failed_first fetch from left base o f r =
    let (a, d) = same_run left base from o in
    record {
      failed_before = λ i h k. elim (at_or_after from i h) [
        | inl e ↦ subst (λ j. is_ok (fetch j) ≡ false) e f
        | inr e ↦ r.failed_before i e (omega (arith, k, a))
      ];
      at_most = omega (arith, a, r.at_most);
      delivers = λ e.
          let (n, p) = r.delivers (sym d ∙ e) in
          (omega (arith, n, a), ap (λ k. is_ok (fetch (k - 1))) a ∙ p);
      gives_up = λ e.
          let (n, p) = r.gives_up (sym d ∙ e) in
          (
            omega (arith, n, a),
            λ i h k. elim (at_or_after from i h) [
              | inl q ↦ subst (λ j. is_ok (fetch j) ≡ false) q f
              | inr q ↦ p i q (omega (arith, k, a))
            ],
          );
      waits_for = wait_if_left-waits fetch from left base o r.waits_for;
    }

attempted-IsRun :
    (fetch : ℕ → Attempt) (x : Attempt) (from left base : ℕ) (last : Option String)
    (again : Option String → Outcome)
    → fetch from ≡ x
    → ((l : Option String) → IsRun fetch (from + 1) left base (again l))
    → IsRun fetch from (suc left) base (after_attempt x left base from last again)
attempted-IsRun fetch ok from left base last again e r = record {
  failed_before = λ i h k. absurd (omega (arith, h, k));
  at_most = omega arith;
  delivers = λ q. (omega arith, ap is_ok (ap fetch (back from) ∙ e));
  gives_up = λ q. cc;
  waits_for = omega (arith, power_mono base from (suc left));
}
attempted-IsRun fetch (http_error m) from left base last again e r =
    failed_first fetch from left base (again (some m)) (ap is_ok e) (r (some m))
attempted-IsRun fetch (threw m) from left base last again e r =
    failed_first fetch from left base (again (some m)) (ap is_ok e) (r (some m))

attempt_loop-IsRun :
    (fetch : ℕ → Attempt) (left base from : ℕ) (last : Option String)
    → IsRun fetch from left base (attempt_loop fetch left base from last)
unfolding attempt_loop
attempt_loop-IsRun fetch zero base from last = record {
  failed_before = λ i h k. absurd (omega (arith, h, k));
  at_most = omega arith;
  delivers = λ q. cc;
  gives_up = λ q. (omega arith, λ i h k. absurd (omega (arith, h, k)));
  waits_for = omega (arith, power_mono base from zero);
}
attempt_loop-IsRun fetch (suc left) base from last =
    attempted-IsRun fetch (fetch from) from left base last _ refl
      (λ l. attempt_loop-IsRun fetch left base (from + 1) l)

-- What the log of failures is after a delivery of `attempts` attempts: as before, or with an entry for
-- the delivery, which has the number of the attempts.
abbrev pub IsLogged :
    (ℕ → Attempt)
    → WebhookConfig
    → (delivery_id event failed_at : String) → ℕ
    → Bool
    → (log log' : List FailedDeliveryEntry) → Type 0
IsLogged fetch config delivery_id event failed_at attempts true log log' = log' ≡ log
IsLogged fetch config delivery_id event failed_at attempts false log log' =
    (e : FailedDeliveryEntry) × (log' ≡ record_failed_delivery e log)
    × (e.attempts ≡ attempts)
    × (e.delivery_id ≡ delivery_id)
    × (e.developer_id ≡ config.developer_id)
    × (e.url ≡ config.url)
    × (e.event ≡ event)
    × (e.failed_at ≡ failed_at)

log_unless-IsLogged :
    (fetch : ℕ → Attempt) (config : WebhookConfig) (delivery_id event failed_at : String)
    (max_retries base : ℕ) (o : Outcome) (b : Bool) (log : List FailedDeliveryEntry)
    → o.delivered ≡ b
    → IsRun fetch 0 max_retries base o
    → IsLogged fetch config delivery_id event failed_at o.attempts b log
        (log_unless fetch b (entry_of fetch config delivery_id event failed_at max_retries o) log)
log_unless-IsLogged fetch config id event at most base o true log e r = refl
log_unless-IsLogged fetch config id event at most base o false log e r =
    (_, refl, omega (arith, (r.gives_up e).0), refl, refl, refl, refl, refl)

-- What a dispatch comes to while dispatches are accepted: it makes no attempt after the first that is
-- answered with success and no more than the maximal number of retries of the policy, so none when
-- that is 0; it gives up only when all of those have failed; its waits with one base delay added come
-- to no more than the base delay doubled once per allowed attempt. When it delivered, the log of
-- failures is as before; when it gave up, the log has got an entry for it with the number of its
-- attempts.
pub dispatch_webhook_lem :
    (fetch : ℕ → Attempt) (config : WebhookConfig) (delivery_id event failed_at : String)
    (log : List FailedDeliveryEntry)
    → let policy = get_effective_retry_policy config.retry_policy in
      let r = dispatch_webhook fetch true config delivery_id event failed_at log in
      (o : Outcome) × (r.0 ≡ some o)
      × IsRun fetch 0 policy.max_retries policy.base_delay_ms o
      × IsLogged fetch config delivery_id event failed_at o.attempts o.delivered log r.1
unfolding dispatch_webhook
dispatch_webhook_lem fetch config delivery_id event failed_at log =
    let run = attempt_loop-IsRun fetch _ _ 0 none in
    (
      _,
      refl,
      run,
      log_unless-IsLogged fetch config delivery_id event failed_at _ _ _ _ log refl run,
    )

bounds_of :
    (m b : Option ℕ)
    → (within 0 10 m && within 100 60000 b) ≡ true
    → (or_default default_max_retries m ≤ 10)
      × (100 ≤ or_default default_base_delay_ms b)
      × (or_default default_base_delay_ms b ≤ 60000)
bounds_of none none v = (omega arith, omega arith, omega arith)
bounds_of none (some b) v = (omega arith, ground (arith, v), ground (arith, v))
bounds_of (some m) none v = (ground (arith, v), omega arith, omega arith)
bounds_of (some m) (some b) v = (ground (arith, v), ground (arith, v), ground (arith, v))

-- The numbers of an effective policy that was valid.
effective_bounds :
    (p : Option RetryPolicy)
    → validate_retry_policy p ≡ true
    → ((effective_of p).max_retries ≤ 10)
      × (100 ≤ (effective_of p).base_delay_ms)
      × ((effective_of p).base_delay_ms ≤ 60000)
unfolding validate_retry_policy
effective_bounds none v = (omega arith, omega arith, omega arith)
effective_bounds (some p) v = bounds_of p.max_retries p.base_delay_ms v

mul_bound : (a b c d : ℕ) → a ≤ c → b ≤ d → a * b ≤ c * d
mul_bound a b c d h k = grind (arith, h, k)

short_wait :
    (w base m : ℕ)
    → w + base * 2 ^ 0 ≤ base * 2 ^ (0 + m)
    → m ≤ 10
    → 100 ≤ base
    → base ≤ 60000
    → w < 61440000
short_wait w base m h k l u =
    let p = pow-le-pow_right {n = 2} (omega arith) {i = 0 + m} {j = 10} (omega (arith, k)) in
    omega (arith, h, l, mul_bound base (2 ^ (0 + m)) 60000 1024 u p)

-- A policy that is valid allows at most ten attempts, and a delivery under it waits for less than
-- 61 440 seconds in all.
validate_retry_policy-bounds :
    (fetch : ℕ → Attempt) (p : Option RetryPolicy) (last : Option String)
    → validate_retry_policy p ≡ true
    → let policy = get_effective_retry_policy p in
      let o = attempt_loop fetch policy.max_retries policy.base_delay_ms 0 last in
      (o.attempts ≤ 10) × (sum_of (λ w. w) o.waits < 61440000)
unfolding get_effective_retry_policy validate_retry_policy
validate_retry_policy-bounds fetch p last v =
    let (m, l, u) = effective_bounds p v in
    let r =
      attempt_loop-IsRun fetch (effective_of p).max_retries (effective_of p).base_delay_ms 0 last in
    (omega (arith, r.at_most, m), short_wait _ _ _ r.waits_for m l u)
