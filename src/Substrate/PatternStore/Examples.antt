-- ===== src/Substrate/PatternStore/Examples.antt =====
-- A shape that succeeds, fails and is signed.
use corellia.Prelude.{◌≡◌, refl, List, [], ◌∷◌, some}
use corellia.Contract.Goal.{Trust}
use corellia.Contract.Events.{Outcome}
use corellia.Substrate.PatternStore.{
  Call, records, promotes, after_calls, match_shape, set_memo, record_outcome, promote,
  promote_found, scored,
}
use corellia.Substrate.PatternStore.Tally.{Tells, after_calls-Tells}

abbrev some_calls : List Call
some_calls =
    promotes "s" Trust.trusted
    ∷ records "s" [] Outcome.failure
    ∷ records "t" [] Outcome.success
    ∷ records "s" [] Outcome.success
    ∷ []

after_calls-Tells_example : Tells some_calls "s" (match_shape (after_calls some_calls) "s")
after_calls-Tells_example = after_calls-Tells some_calls "s"

signed_memo :
    match_shape (after_calls some_calls) "s"
    ≡ some (record {
      shape = "s";
      decision = [];
      status = Trust.trusted;
      uses = 2;
      successes = 1;
      failures = 1;
    })
unfolding after_calls match_shape record_outcome promote promote_found scored set_memo
signed_memo = refl
