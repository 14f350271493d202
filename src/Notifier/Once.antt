-- ===== src/Notifier/Once.antt =====
-- services/quotaNotifier.ts: no notification is fired twice.
use callora_backend.Common.{
  ℕ, ◌≡◌, refl, sym, ap, ◌∙◌, List, [], ◌∷◌, ◌++◌, Bool, true, false, ◌||◌, ◌==◌, Option, none,
  some, map, arith, inl, inr, ◌⊎◌, if-intro,
}
use callora_backend.Notifier.{
  SentKey, DeveloperQuota, Notification, Marking, marks, fails, fails_marked, Surroundings,
  same_key, has_been_sent, Fired, nothing, mark_and_fire, key_of, fire_unless, is_below,
  check_threshold, and_then, check_thresholds, check_counted, check_developer, check_developers,
  check_loaded, run_quota_check, run_ticks, quota_thresholds,
}

abbrev pub keys_of : List Notification → List SentKey
keys_of = map (λ n. n.key)

-- No key occurs twice.
abbrev pub Distinct : List SentKey → Type 0
Distinct [] = Unit
Distinct (k ∷ ks) = (has_been_sent k ks ≡ false) × Distinct ks

-- What was fired is new and sent now, once each, and what was sent before is sent still.
pub record IsNew (sent : List SentKey) (f : Fired) : Type 0 where
  pub keeps : (k : SentKey) → has_been_sent k sent ≡ true → has_been_sent k f.sent ≡ true
  pub was_new :
      (k : SentKey) → has_been_sent k (keys_of f.fired) ≡ true → has_been_sent k sent ≡ false
  pub is_sent :
      (k : SentKey) → has_been_sent k (keys_of f.fired) ≡ true → has_been_sent k f.sent ≡ true
  pub once : Distinct (keys_of f.fired)

has_been_sent-append :
    (k : SentKey) (xs ys : List Notification)
    → has_been_sent k (keys_of (xs ++ ys))
      ≡ (has_been_sent k (keys_of xs) || has_been_sent k (keys_of ys))
unfolding has_been_sent
has_been_sent-append k [] ys = refl
has_been_sent-append k (x ∷ xs) ys = ground (arith, has_been_sent-append k xs ys)

pub same_key_refl : (k : SentKey) → same_key k k ≡ true
same_key_refl k = ground arith

Distinct-append :
    (xs ys : List Notification)
    → Distinct (keys_of xs)
    → Distinct (keys_of ys)
    → ((k : SentKey) → has_been_sent k (keys_of xs) ≡ true → has_been_sent k (keys_of ys) ≡ false)
    → Distinct (keys_of (xs ++ ys))
unfolding has_been_sent
Distinct-append [] ys dx dy h = dy
Distinct-append (x ∷ xs) ys dx dy h = (
  has_been_sent-append x.key xs ys ∙ or_false _ _ dx.0 (h x.key (rw (same_key_refl x.key) refl)),
  Distinct-append xs ys dx.1 dy (λ k e. h k (ground (arith, e))),
)
  where
    or_false : (a b : Bool) → a ≡ false → b ≡ false → (a || b) ≡ false
    or_false a b p q = ground (arith, p, q)

nothing-IsNew : (sent : List SentKey) → IsNew sent (nothing sent)
unfolding has_been_sent
nothing-IsNew sent = record {
  keeps = λ k e. e;
  was_new = λ k e. cc;
  is_sent = λ k e. cc;
  once = tt;
}

in_either :
    (k : SentKey) (xs ys : List Notification)
    → has_been_sent k (keys_of (xs ++ ys)) ≡ true
    → (has_been_sent k (keys_of xs) ≡ true) ⊎ (has_been_sent k (keys_of ys) ≡ true)
in_either k xs ys e = ground (arith, has_been_sent-append k xs ys, e)

not_before : (a b : Bool) → (a ≡ true → b ≡ true) → b ≡ false → a ≡ false
not_before true b f e = absurd (ground (arith, f refl, e))
not_before false b f e = refl

same_key-fields :
    (a b : SentKey)
    → same_key a b ≡ true
    → (a.developer_id ≡ b.developer_id) × (a.period ≡ b.period) × (a.threshold ≡ b.threshold)
same_key-fields a b h = (ground (arith, h), ground (arith, h), ground (arith, h))

same_key-sent :
    (a b : SentKey) (sent : List SentKey)
    → same_key a b ≡ true
    → has_been_sent b sent ≡ has_been_sent a sent
same_key-sent a b sent h =
    let (p, q, r) = same_key-fields a b h in
    sym (
      ap
        (λ d.
          has_been_sent (record { developer_id = d; period = a.period; threshold = a.threshold })
            sent)
        p
      ∙ ap
          (λ x.
            has_been_sent
              (record { developer_id = b.developer_id; period = x; threshold = a.threshold }) sent)
          q
      ∙ ap
          (λ t.
            has_been_sent
              (record { developer_id = b.developer_id; period = b.period; threshold = t }) sent)
          r)

and_then-IsNew :
    (sent : List SentKey) (a : Fired) (next : List SentKey → Fired)
    → IsNew sent a
    → IsNew a.sent (next a.sent)
    → IsNew sent (and_then a next)
and_then-IsNew sent a next p q = record {
  keeps = λ k e. q.keeps k (p.keeps k e);
  was_new = λ k e. elim (in_either k a.fired (next a.sent).fired e) [
    | inl h ↦ p.was_new k h
    | inr h ↦ not_before _ _ (p.keeps k) (q.was_new k h)
  ];
  is_sent = λ k e. elim (in_either k a.fired (next a.sent).fired e) [
    | inl h ↦ q.keeps k (p.is_sent k h)
    | inr h ↦ q.is_sent k h
  ];
  once =
      Distinct-append a.fired (next a.sent).fired p.once q.once
        (λ k e. ground (arith, p.is_sent k e, q.was_new k));
}

mark_and_fire-IsNew :
    (m : Marking) (n : Notification) (sent : List SentKey)
    → has_been_sent n.key sent ≡ false
    → IsNew sent (mark_and_fire m n sent)
unfolding has_been_sent
mark_and_fire-IsNew marks n sent e = record {
  keeps = λ k h. ground (arith, h);
  was_new = λ k h. same_key-sent n.key k sent (ground (arith, h)) ∙ e;
  is_sent = λ k h. ground (arith, h);
  once = (refl, tt);
}
mark_and_fire-IsNew fails n sent e = nothing-IsNew sent
mark_and_fire-IsNew fails_marked n sent e = record {
  keeps = λ k h. ground (arith, h);
  was_new = λ k h. cc;
  is_sent = λ k h. cc;
  once = tt;
}

fire_unless-IsNew :
    (b : Bool) (m : Marking) (n : Notification) (sent : List SentKey)
    → (b ≡ false → has_been_sent n.key sent ≡ false)
    → IsNew sent (fire_unless b m n sent)
fire_unless-IsNew true m n sent h = nothing-IsNew sent
fire_unless-IsNew false m n sent h = mark_and_fire-IsNew m n sent (h refl)

check_threshold-IsNew :
    (env : Surroundings) (q : DeveloperQuota) (call_count t : ℕ) (sent : List SentKey)
    → IsNew sent (check_threshold env q call_count t sent)
unfolding check_threshold
check_threshold-IsNew env q call_count t sent =
    if-intro (IsNew sent) (is_below q call_count t || env.lookup_fails (key_of env q t)) _ _
      (λ e. nothing-IsNew sent)
      (λ e. fire_unless-IsNew (has_been_sent (key_of env q t) sent) _ _ sent (λ g. g))

pub check_thresholds-IsNew :
    (env : Surroundings) (q : DeveloperQuota) (call_count : ℕ) (ts : List ℕ) (sent : List SentKey)
    → IsNew sent (check_thresholds env q call_count ts sent)
unfolding check_thresholds
check_thresholds-IsNew env q call_count [] sent = nothing-IsNew sent
check_thresholds-IsNew env q call_count (t ∷ ts) sent =
    and_then-IsNew sent _ (λ s. check_thresholds env q call_count ts s)
      (check_threshold-IsNew env q call_count t sent) (check_thresholds-IsNew env q call_count ts _)

check_counted-IsNew :
    (env : Surroundings) (q : DeveloperQuota) (o : Option ℕ) (sent : List SentKey)
    → IsNew sent (check_counted env q o sent)
check_counted-IsNew env q none sent = nothing-IsNew sent
check_counted-IsNew env q (some n) sent = check_thresholds-IsNew env q n quota_thresholds sent

check_developer-IsNew :
    (env : Surroundings) (q : DeveloperQuota) (sent : List SentKey)
    → IsNew sent (check_developer env q sent)
check_developer-IsNew env q sent =
    if-intro (IsNew sent) (q.monthly_limit == 0) _ _ (λ e. nothing-IsNew sent)
      (λ e. check_counted-IsNew env q (env.call_count q.developer_id) sent)

pub check_developers-IsNew :
    (env : Surroundings) (qs : List DeveloperQuota) (sent : List SentKey)
    → IsNew sent (check_developers env qs sent)
unfolding check_developers
check_developers-IsNew env [] sent = nothing-IsNew sent
check_developers-IsNew env (q ∷ qs) sent =
    and_then-IsNew sent _ (λ s. check_developers env qs s) (check_developer-IsNew env q sent)
      (check_developers-IsNew env qs _)

check_loaded-IsNew :
    (env : Surroundings) (o : Option (List DeveloperQuota)) (sent : List SentKey)
    → IsNew sent (check_loaded env o sent)
check_loaded-IsNew env none sent = nothing-IsNew sent
check_loaded-IsNew env (some qs) sent = check_developers-IsNew env qs sent

-- Over any ticks of the job, one after the other, whatever fails in them, each notification that is
-- fired was not sent before them, is marked as sent after them, and no two are for the same developer,
-- period and threshold.
pub run_ticks-IsNew :
    (envs : List Surroundings) (sent : List SentKey) → IsNew sent (run_ticks envs sent)
unfolding run_ticks run_quota_check
run_ticks-IsNew [] sent = nothing-IsNew sent
run_ticks-IsNew (env ∷ envs) sent =
    and_then-IsNew sent _ (λ s. run_ticks envs s) (check_loaded-IsNew env env.quotas sent)
      (run_ticks-IsNew envs _)
