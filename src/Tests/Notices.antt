-- ===== src/Tests/Notices.antt =====
-- The quota notifier on one developer who has used 96 of 100 calls.
use callora_backend.Common.{ℕ, ◌≡◌, refl, [], ◌∷◌, some, true, false, map, str_dec, inl, arith}
use callora_backend.Notifier.{
  DeveloperQuota, Surroundings, marks, has_been_sent, key_of, run_quota_check, run_ticks,
}
use callora_backend.Notifier.Once.{IsNew, run_ticks-IsNew}
use callora_backend.Notifier.Reached.{IsWorking, run_quota_check-marked}

abbrev quota : DeveloperQuota
quota = record { developer_id = "dev"; monthly_limit = 100 }

abbrev used : ℕ → Surroundings
used n = record {
  period = "2026-01";
  quotas = some (quota ∷ []);
  call_count = λ d. some n;
  lookup_fails = λ k. false;
  marking = λ k. marks;
}

ticks_run :
    map (λ n. n.key.threshold) (run_ticks (used 79 ∷ used 96 ∷ used 97 ∷ used 120 ∷ []) []).fired
    ≡ 80 ∷ 95 ∷ 100 ∷ []
unfolding run_ticks str_dec
ticks_run = refl

run_ticks-IsNew_example : IsNew [] (run_ticks (used 96 ∷ used 120 ∷ []) [])
run_ticks-IsNew_example = run_ticks-IsNew (used 96 ∷ used 120 ∷ []) []

used-IsWorking : IsWorking (used 96)
used-IsWorking = record { answers = λ k. refl; marks_all = λ k. refl }

run_quota_check-marked_example :
    has_been_sent (key_of (used 96) quota 80) (run_quota_check (used 96) []).sent ≡ true
run_quota_check-marked_example =
    run_quota_check-marked (used 96) (quota ∷ []) quota 96 80 [] used-IsWorking refl (inl refl)
      (λ e. omega arith) refl (inl refl) (omega arith)
