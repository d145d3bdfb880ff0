-- ===== src/Ipc/FilterRouter/Examples.antt =====
-- Runs of the router, and its theorems at concrete inputs.
use mathlib.Core.Path.{subst}
use lib_hh_old.Common.{
  ℕ, ◌<◌, ◌≡◌, refl, arith, Bool, true, some, none, List, [], ◌∷◌, ◌++◌, ◌==◌, All, if◌then◌else◌,
}
use lib_hh_old.Common.Bytes.{le_value, zeros}
use lib_hh_old.Common.Slices.{load}
use lib_hh_old.Common.Int.{pos, to_int}
use lib_hh_old.Ipc.Message.{Message, message_type, header_field}
use lib_hh_old.Ipc.FilterRouter.{
  Filters, MessageFilterRouter, new_router, add_filter, remove_filter, try_filters, subscribe_all,
  subscribe_class, subscribe, contains,
}
use lib_hh_old.Ipc.FilterRouter.Removal.{remove_filter-add_filter}
use lib_hh_old.Ipc.FilterRouter.Offers.{Offered, concerned, try_filters-Offered}

-- Filter 1 asks for all messages; the others name class 1 twice. Only filter 2 takes a message.
abbrev filters : Filters
filters = record {
  supported_message_classes = λ f. if f == 1 then none else some (1 ∷ 1 ∷ []);
  on_message_received = λ f message. f == 2;
}

-- A filter that names a class that does not exist.
abbrev beyond : Filters
beyond = record {
  supported_message_classes = λ f. some (2 ∷ []);
  on_message_received = λ f message. true;
}

abbrev router : MessageFilterRouter
router = record { global_filters = 1 ∷ []; message_class_filters = [] ∷ (3 ∷ 2 ∷ 4 ∷ []) ∷ [] }

abbrev message : Message
message = record {
  pickle = record {
    header = some (zeros 8 ++ (5 ∷ 0 ∷ 1 ∷ 0 ∷ zeros 4));
    header_size = 16;
    capacity_after_header = 0xffff_ffff;
    write_offset = 0;
  };
  sender_pid = pos 0;
}

add_filter-beyond : add_filter beyond 5 new_router ≡ none
unfolding add_filter new_router subscribe_all subscribe_class subscribe to_int
add_filter-beyond = refl

valid_classes :
    (classes : List ℕ)
    → filters.supported_message_classes 5 ≡ some classes
    → All (λ c. c < 2) classes
valid_classes classes e =
    subst (λ o. elim o as (λ _. Type 0) [ none ↦ Unit {0} | some cs ↦ All (λ c. c < 2) cs ]) e
      (omega arith, (omega arith, tt))

remove_filter-add_filter_example :
    (r' : MessageFilterRouter) × (add_filter filters 5 router ≡ some r')
    × (remove_filter 5 r' ≡ router)
unfolding contains
remove_filter-add_filter_example =
    remove_filter-add_filter filters 5 router refl (refl, (refl, (refl, tt))) valid_classes

try_filters-Offered_example :
    (result : Bool × List ℕ) × (try_filters filters router message ≡ some result)
    × Offered filters message (concerned router 0x1_0005) result
unfolding message_type header_field le_value load
try_filters-Offered_example = try_filters-Offered filters router message 0x1_0005 refl refl
