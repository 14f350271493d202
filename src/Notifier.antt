-- ===== src/Notifier.antt =====
-- services/quotaNotifier.ts: one pass over the quotas of the developers, and the notifications that it
-- fires. The percentage is compared without rounding: calls * 100 with threshold * limit. Loading the
-- quotas, counting calls and the store of sent notifications may fail, as the surroundings say.
pub mod Once
pub mod Reached
use callora_backend.Common.{
  ℕ, ◌*◌, String, List, [], ◌∷◌, ◌++◌, Bool, true, false, ◌&&◌, ◌||◌, ◌==◌, Option, none, some, ltb,
  if◌then◌else◌, ite, str_dec,
}

-- The key of a notification that has been sent.
pub record SentKey : Type 0 where
  pub developer_id : String
  pub period : String
  pub threshold : ℕ

-- `DeveloperQuota`
pub record DeveloperQuota : Type 0 where
  pub developer_id : String
  pub monthly_limit : ℕ

-- `QuotaThresholdReachedData`, with its developer in the key.
pub record Notification : Type 0 where
  pub key : SentKey
  pub current_usage : ℕ
  pub quota_limit : ℕ

-- What `markSent` does: it marks the key, fails without a mark, or fails although it has marked it.
pub data Marking : Type 0 where
  marks fails fails_marked : Marking

-- What a pass meets: the period, the quotas, the calls of each developer, and the failures of the store.
pub record Surroundings : Type 0 where
  pub period : String
  pub quotas : Option (List DeveloperQuota)
  pub call_count : String → Option ℕ
  pub lookup_fails : SentKey → Bool
  pub marking : SentKey → Marking

-- QUOTA_THRESHOLDS
abbrev pub quota_thresholds : List ℕ
quota_thresholds = 80 ∷ 95 ∷ 100 ∷ []

abbrev pub same_key : SentKey → SentKey → Bool
same_key a b =
    ite (str_dec a.developer_id b.developer_id) true false
    && ite (str_dec a.period b.period) true false
    && a.threshold == b.threshold

-- `hasBeenSent`
unfoldable pub has_been_sent : SentKey → List SentKey → Bool
has_been_sent k [] = false
has_been_sent k (x ∷ xs) = let rest = has_been_sent k xs in if same_key x k then true else rest

-- What a step fires, which is what it begins to dispatch, and the store that it leaves.
pub record Fired : Type 0 where
  pub fired : List Notification
  pub sent : List SentKey

abbrev pub nothing : List SentKey → Fired
nothing sent = record { fired = []; sent = sent }

abbrev pub mark_and_fire : Marking → Notification → List SentKey → Fired
mark_and_fire marks n sent = record { fired = n ∷ []; sent = n.key ∷ sent }
mark_and_fire fails n sent = nothing sent
mark_and_fire fails_marked n sent = nothing (n.key ∷ sent)

abbrev pub key_of : Surroundings → DeveloperQuota → ℕ → SentKey
key_of env q threshold = record {
  developer_id = q.developer_id;
  period = env.period;
  threshold = threshold;
}

abbrev pub notification_of :
    Surroundings → DeveloperQuota → (call_count threshold : ℕ) → Notification
notification_of env q call_count threshold = record {
  key = key_of env q threshold;
  current_usage = call_count;
  quota_limit = q.monthly_limit;
}

abbrev pub fire_unless : Bool → Marking → Notification → List SentKey → Fired
fire_unless already_sent m n sent = if already_sent then nothing sent else mark_and_fire m n sent

-- `usagePercent < threshold`
abbrev pub is_below : DeveloperQuota → (call_count threshold : ℕ) → Bool
is_below q call_count threshold = ltb (call_count * 100) (threshold * q.monthly_limit)

-- One threshold of one developer.
unfoldable pub check_threshold :
    Surroundings → DeveloperQuota → (call_count threshold : ℕ) → List SentKey → Fired
unfolding has_been_sent
check_threshold env q call_count threshold sent =
    let key = key_of env q threshold in
    if is_below q call_count threshold || env.lookup_fails key
    then nothing sent
    else fire_unless (has_been_sent key sent) (env.marking key)
        (notification_of env q call_count threshold) sent

-- One step after another.
abbrev pub and_then : Fired → (List SentKey → Fired) → Fired
and_then a next = let b = next a.sent in record { fired = a.fired ++ b.fired; sent = b.sent }

unfoldable pub check_thresholds : Surroundings → DeveloperQuota → ℕ → List ℕ → List SentKey → Fired
unfolding check_threshold
check_thresholds env q call_count [] sent = nothing sent
check_thresholds env q call_count (t ∷ ts) sent =
    and_then (check_threshold env q call_count t sent) (λ s. check_thresholds env q call_count ts s)

abbrev pub check_counted : Surroundings → DeveloperQuota → Option ℕ → List SentKey → Fired
check_counted env q none sent = nothing sent
check_counted env q (some call_count) sent = check_thresholds env q call_count quota_thresholds sent

abbrev pub check_developer : Surroundings → DeveloperQuota → List SentKey → Fired
check_developer env q sent =
    if q.monthly_limit == 0
    then nothing sent
    else check_counted env q (env.call_count q.developer_id) sent

unfoldable pub check_developers : Surroundings → List DeveloperQuota → List SentKey → Fired
unfolding check_thresholds
check_developers env [] sent = nothing sent
check_developers env (q ∷ qs) sent =
    and_then (check_developer env q sent) (λ s. check_developers env qs s)

abbrev pub check_loaded : Surroundings → Option (List DeveloperQuota) → List SentKey → Fired
check_loaded env none sent = nothing sent
check_loaded env (some qs) sent = check_developers env qs sent

-- `runQuotaCheck`
unfoldable pub run_quota_check : Surroundings → List SentKey → Fired
unfolding check_developers
run_quota_check env sent = check_loaded env env.quotas sent

-- The ticks of the job, one after the other, since a tick that begins while another runs returns.
unfoldable pub run_ticks : List Surroundings → List SentKey → Fired
unfolding run_quota_check
run_ticks [] sent = nothing sent
run_ticks (env ∷ envs) sent = and_then (run_quota_check env sent) (λ s. run_ticks envs s)
