-- ===== src/Tests/Bulks.antt =====
-- Bulk deductions on the ledger of the tests of single ones.
use callora_backend.Common.{
  ℕ, ◌≡◌, refl, String, List, [], ◌∷◌, none, some, Dict, lookup, insert, str_dec, str_ne,
}
use callora_backend.Billing.Usdc.{parse_usdc_to_contract_units}
use callora_backend.Billing.Soroban.{codes}
use callora_backend.Billing.Events.{DeductRequest}
use callora_backend.Billing.Bulk.{
  amounts, parse_requests, run_phase1_bulk, total_inserted, total_new, request_ids,
  get_usage_events_by_request_ids, BulkReply, answered, row_missing,
}
use callora_backend.Billing.Bulk.Flow.{deduct_bulk}
use callora_backend.Billing.Bulk.Totals.{Once, owed, total_inserted_lem}
use callora_backend.Tests.Deductions.{bank, quiet, a_request, delays, start, no_rows}

abbrev id1 : String
id1 = "r1"

abbrev id2 : String
id2 = "r2"

abbrev first : DeductRequest
first = record a_request { request_id = id1; amount_usdc = codes "1" }

abbrev second : DeductRequest
second = record a_request { request_id = id2; amount_usdc = codes "2" }

abbrev both : List DeductRequest
both = first ∷ second ∷ []

abbrev priced : Dict ℕ
priced = (id1, 10000000) ∷ (id2, 20000000) ∷ []

abbrev digest : List String → String
digest ids = "digest"

both_parse : parse_requests both (amounts 0 []) ≡ amounts 30000000 priced
unfolding parse_requests parse_usdc_to_contract_units insert str_dec
both_parse = refl

both-Once : Once both
unfolding str_dec
both-Once = ((str_ne id2 id1 refl, tt), (tt, tt))

-- The amount of a request id that occurs twice is the last one, while its one row has the first.
abbrev last_amount : List DeductRequest
last_amount = first ∷ record second { request_id = id1 } ∷ []

abbrev charged_of : BulkReply → ℕ
charged_of (answered r) = r.deducted_count
charged_of row_missing = 0

charged_run : charged_of (deduct_bulk bank delays digest quiet both none start).0 ≡ 2
unfolding deduct_bulk lookup insert str_dec
charged_run = refl

last_amount_run :
    lookup "digest" (deduct_bulk bank delays digest quiet last_amount none start).1.ledger
    ≡ some 20000000
unfolding deduct_bulk lookup insert str_dec
last_amount_run = refl

total_inserted_lem_example :
    (total_inserted priced (run_phase1_bulk both no_rows).inserted ≡ owed [] both)
    × (total_new (get_usage_events_by_request_ids (request_ids both) []) priced both ≡ owed [] both)
total_inserted_lem_example = total_inserted_lem both no_rows 30000000 priced both-Once both_parse
