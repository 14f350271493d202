-- ===== src/Notifier/Reached.antt =====
-- services/quotaNotifier.ts: a threshold that is reached is marked as sent by the pass.
use callora_backend.Common.{
  ℕ, ◌*◌, ◌≤◌, ◌≡◌, ◌≢◌, refl, sym, subst, List, [], ◌∷◌, Bool, true, false, ◌==◌, some, ltb, arith,
  inl, inr, ◌⊎◌,
}
use callora_backend.Notifier.{
  SentKey, DeveloperQuota, marks, Surroundings, has_been_sent, key_of, notification_of, fire_unless,
  is_below, check_threshold, check_thresholds, check_developer, check_developers, run_quota_check,
  quota_thresholds,
}
use callora_backend.Notifier.Once.{same_key_refl, check_thresholds-IsNew, check_developers-IsNew}

-- The store does not fail.
pub record IsWorking (env : Surroundings) : Type 0 where
  pub answers : (k : SentKey) → env.lookup_fails k ≡ false
  pub marks_all : (k : SentKey) → env.marking k ≡ marks

abbrev pub AmongQuotas : DeveloperQuota → List DeveloperQuota → Type 0
AmongQuotas q [] = ⊥
AmongQuotas q (x ∷ xs) = (x ≡ q) ⊎ AmongQuotas q xs

abbrev pub AmongThresholds : ℕ → List ℕ → Type 0
AmongThresholds t [] = ⊥
AmongThresholds t (x ∷ xs) = (x ≡ t) ⊎ AmongThresholds t xs

marked :
    (env : Surroundings) (q : DeveloperQuota) (n t : ℕ) (b : Bool) (sent : List SentKey)
    → has_been_sent (key_of env q t) sent ≡ b
    → has_been_sent (key_of env q t) (fire_unless b marks (notification_of env q n t) sent).sent
      ≡ true
unfolding has_been_sent
marked env q n t true sent e = e
marked env q n t false sent e = rw (same_key_refl (key_of env q t)) refl

check_threshold-marked :
    (env : Surroundings) (q : DeveloperQuota) (n t : ℕ) (sent : List SentKey)
    → IsWorking env
    → is_below q n t ≡ false
    → has_been_sent (key_of env q t) (check_threshold env q n t sent).sent ≡ true
unfolding check_threshold
check_threshold-marked env q n t sent w h =
    rw (h, w.answers (key_of env q t), w.marks_all (key_of env q t)) (marked env q n t _ sent refl)

check_thresholds-marked :
    (env : Surroundings) (q : DeveloperQuota) (n t : ℕ) (ts : List ℕ) (sent : List SentKey)
    → IsWorking env
    → is_below q n t ≡ false
    → AmongThresholds t ts
    → has_been_sent (key_of env q t) (check_thresholds env q n ts sent).sent ≡ true
unfolding check_thresholds
check_thresholds-marked env q n t [] sent w h m = absurd m
check_thresholds-marked env q n t (x ∷ ts) sent w h (inl e) =
    (check_thresholds-IsNew env q n ts (check_threshold env q n x sent).sent).keeps (key_of env q t)
      (subst (λ y. has_been_sent (key_of env q t) (check_threshold env q n y sent).sent ≡ true)
        (sym e) (check_threshold-marked env q n t sent w h))
check_thresholds-marked env q n t (x ∷ ts) sent w h (inr m) =
    check_thresholds-marked env q n t ts _ w h m

check_developer-marked :
    (env : Surroundings) (q : DeveloperQuota) (n t : ℕ) (sent : List SentKey)
    → IsWorking env
    → (q.monthly_limit == 0) ≡ false
    → env.call_count q.developer_id ≡ some n
    → is_below q n t ≡ false
    → AmongThresholds t quota_thresholds
    → has_been_sent (key_of env q t) (check_developer env q sent).sent ≡ true
check_developer-marked env q n t sent w p c h m =
    rw (p, c) (check_thresholds-marked env q n t quota_thresholds sent w h m)

check_developers-marked :
    (env : Surroundings) (q : DeveloperQuota) (n t : ℕ) (qs : List DeveloperQuota)
    (sent : List SentKey)
    → IsWorking env
    → (q.monthly_limit == 0) ≡ false
    → env.call_count q.developer_id ≡ some n
    → is_below q n t ≡ false
    → AmongThresholds t quota_thresholds
    → AmongQuotas q qs
    → has_been_sent (key_of env q t) (check_developers env qs sent).sent ≡ true
unfolding check_developers
check_developers-marked env q n t [] sent w p c h m a = absurd a
check_developers-marked env q n t (x ∷ qs) sent w p c h m (inl e) =
    (check_developers-IsNew env qs (check_developer env x sent).sent).keeps (key_of env q t) (
      subst (λ y. has_been_sent (key_of env q t) (check_developer env y sent).sent ≡ true) (sym e)
        (check_developer-marked env q n t sent w p c h m))
check_developers-marked env q n t (x ∷ qs) sent w p c h m (inr a) =
    check_developers-marked env q n t qs _ w p c h m a

not_zero : (n : ℕ) → n ≢ 0 → (n == 0) ≡ false
not_zero n h = ground (arith, h)

not_below : (a b : ℕ) → b ≤ a → ltb a b ≡ false
not_below a b h = ground (arith, h)

-- When the store does not fail, a pass marks as sent each threshold that the calls of a listed developer
-- with a positive limit have reached.
pub run_quota_check-marked :
    (env : Surroundings) (qs : List DeveloperQuota) (q : DeveloperQuota) (n t : ℕ)
    (sent : List SentKey)
    → IsWorking env
    → env.quotas ≡ some qs
    → AmongQuotas q qs
    → q.monthly_limit ≢ 0
    → env.call_count q.developer_id ≡ some n
    → AmongThresholds t quota_thresholds
    → t * q.monthly_limit ≤ n * 100
    → has_been_sent (key_of env q t) (run_quota_check env sent).sent ≡ true
unfolding run_quota_check
run_quota_check-marked env qs q n t sent w l a z c m h =
    rw l (check_developers-marked env q n t qs sent w (not_zero _ z) c (not_below _ _ h) m a)
