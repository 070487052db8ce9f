-- ===== src/EventTask/Tests.antt =====
-- Two ends with the host ids 4 and 9.
use wish_c.Prelude.{ℕ, ◌≡◌, refl, true, false, [], ◌∷◌, precedes}
use wish_c.Connection.Types.{zero_connection}
use wish_c.Connection.Tests.{lab}
use wish_c.EventQueue.{new_core_connection}
use wish_c.Identity.Tests.{small, small_disk}
use wish_c.EventTask.{message_processor_task}
use wish_c.EventTask.Parallel.{End, handled, one_end_checks}

abbrev end_of : ℕ → ℕ → End
end_of own other = record {
  bson = small;
  peek_len = 100;
  host_id = own ∷ [];
  world = lab;
  session = record { conn = record (zero_connection 8) { rhid = other ∷ [] }; log = [] };
  disk = small_disk;
}

nine_checks : (handled (end_of 9 4) new_core_connection).check_scheduled ≡ true
unfolding message_processor_task precedes
nine_checks = refl

one_end_checks_example : (handled (end_of 4 9) new_core_connection).check_scheduled ≡ false
one_end_checks_example =
    one_end_checks (end_of 9 4) (end_of 4 9) new_core_connection new_core_connection refl refl
      nine_checks
