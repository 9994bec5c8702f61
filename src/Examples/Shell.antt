-- ===== src/Examples/Shell.antt =====
-- Lines typed into benchmark/robflex_event_change/robflex_event_change.py.
use pmu_roboflex.Prelude.{◌≡◌, refl, true, some, List, [], ◌∷◌, Text, codes, length}
use pmu_roboflex.Prelude.Int.{pos, negsuc}
use pmu_roboflex.Prelude.Decimal.{str_int}
use pmu_roboflex.Prelude.Words.{split, lower, is_space}
use pmu_roboflex.Client.{Net, fresh}
use pmu_roboflex.EventChange.{
  Shell, banner, Input, line, interrupt, apply_on, is_quit, handle_raw, main,
}
use pmu_roboflex.EventChange.Lines.{handle_raw_apply}
use pmu_roboflex.EventChange.Loop.{IsFinished, main-IsFinished}

abbrev silent : Net
silent = record {
  socket = λ n. some n;
  sendto = λ n fd bytes address. some (pos 1);
  gettid = pos 9;
}

abbrev opened : Shell
opened = record { client = fresh; printed = banner ∷ [] }

abbrev apply_line : Text
apply_line = codes "  apply high_speed\t500 -2 now\n"

abbrev cancel_line : Text
cancel_line = codes "cancel emergency_stop  3\n"

abbrev quit_line : Text
quit_line = codes " QUIT now\n"

apply_words :
    split apply_line
    ≡ codes "apply" ∷ codes "high_speed" ∷ str_int (pos 500) ∷ str_int (negsuc 1) ∷ codes "now" ∷ []
unfolding split is_space str_int
apply_words = refl

handle_raw_apply_example :
    handle_raw silent apply_line opened
    ≡ (true, apply_on silent (codes "high_speed") (pos 500) (negsuc 1) opened)
handle_raw_apply_example =
    handle_raw_apply silent apply_line (codes "high_speed") (pos 500) (negsuc 1) (codes "now" ∷ [])
      opened apply_words

cancel_words : split cancel_line ≡ codes "cancel" ∷ codes "emergency_stop" ∷ str_int (pos 3) ∷ []
unfolding split is_space str_int
cancel_words = refl

quit_words : split quit_line ≡ codes "QUIT" ∷ codes "now" ∷ []
unfolding split is_space
quit_words = refl

quit_quits : is_quit (lower (codes "QUIT")) ≡ true
unfolding is_quit lower
quit_quits = refl

abbrev inputs : List Input
inputs = line apply_line ∷ line (codes "# a note\n") ∷ line cancel_line ∷ interrupt ∷ []

main-IsFinished_example :
    ((main silent inputs).0 ≡ 0) × IsFinished (length inputs) (main silent inputs).1.client
main-IsFinished_example = main-IsFinished silent inputs
