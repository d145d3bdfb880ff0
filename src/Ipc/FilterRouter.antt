-- ===== src/Ipc/FilterRouter.antt =====
-- libHH/ipc/message_filter_router.h and message_filter_router.cpp: which filters are offered a
-- message. A filter is its address. What the virtual functions of `MessageFilter` answer is a record
-- `Filters`; the filters that were asked are returned in the order of the calls. `none` is undefined
-- behaviour: an index outside `message_class_filters_`, or a null header.
pub mod Removal
pub mod Offers
mod Examples
use lib_hh_old.Common.{
  ℕ, zero, suc, ◌/◌, Bool, true, false, not, Option, some, none, List, [], ◌∷◌, ◌++◌, ltb, ◌==◌,
  if◌then◌else◌, ◌>>=◌,
}
use lib_hh_old.Common.Int.{ℤ, pos, negsuc, to_int}
use lib_hh_old.Ipc.Message.{Message, message_type}

-- `GetSupportedMessageClasses`, `none` for `false`, and `OnMessageReceived`.
pub record Filters : Type 0 where
  pub supported_message_classes : ℕ → Option (List ℕ)
  pub on_message_received : ℕ → Message → Bool

pub record MessageFilterRouter : Type 0 where
  pub global_filters : List ℕ
  pub message_class_filters : List (List ℕ)

-- `LastIPCMsgStart`, the length of `message_class_filters_`.
abbrev pub last_ipc_msg_start : ℕ
last_ipc_msg_start = 2

unfoldable pub new_router : MessageFilterRouter
new_router = record { global_filters = []; message_class_filters = [] ∷ [] ∷ [] }

-- `!filters.empty() && filters.back() == filter`.
unfoldable pub ends_with : ℕ → List ℕ → Bool
ends_with filter [] = false
ends_with filter (x ∷ []) = x == filter
ends_with filter (x ∷ (y ∷ filters)) = ends_with filter (y ∷ filters)

unfoldable pub push_once : ℕ → List ℕ → List ℕ
push_once filter filters = if ends_with filter filters then filters else filters ++ (filter ∷ [])

-- The body of the loop of `AddFilter` on the entry of a class.
unfoldable pub subscribe : ℕ → ℕ → List (List ℕ) → Option (List (List ℕ))
subscribe filter n [] = none
subscribe filter zero (l ∷ ls) = some (push_once filter l ∷ ls)
subscribe filter (suc n) (l ∷ ls) = do ls' ← subscribe filter n ls; some (l ∷ ls')

-- `const int message_class = supported_message_classes[i]` is the index.
unfoldable pub subscribe_class : ℕ → ℤ → List (List ℕ) → Option (List (List ℕ))
subscribe_class filter (negsuc n) ls = none
subscribe_class filter (pos n) ls = subscribe filter n ls

unfoldable pub subscribe_all : ℕ → List ℕ → List (List ℕ) → Option (List (List ℕ))
subscribe_all filter [] ls = some ls
subscribe_all filter (c ∷ cs) ls = do
  ls' ← subscribe_class filter (to_int c) ls
  subscribe_all filter cs ls'

unfoldable pub remove : ℕ → List ℕ → List ℕ
remove filter [] = []
remove filter (x ∷ filters) =
    if x == filter then remove filter filters else x ∷ remove filter filters

unfoldable pub contains : ℕ → List ℕ → Bool
contains filter [] = false
contains filter (x ∷ filters) = if x == filter then true else contains filter filters

-- `RemoveFilterImpl`: `std::remove` finds nothing to remove, or what it keeps is kept in order.
unfoldable pub remove_filter_impl : ℕ → List ℕ → List ℕ × Bool
remove_filter_impl filter filters =
    if contains filter filters then (remove filter filters, true) else (filters, false)

abbrev pub remove_each : ℕ → List (List ℕ) → List (List ℕ)
remove_each filter [] = []
remove_each filter (l ∷ ls) = (remove_filter_impl filter l).0 ∷ remove_each filter ls

unfoldable pub remove_filter : ℕ → MessageFilterRouter → MessageFilterRouter
remove_filter filter r =
    let (filters, removed) = remove_filter_impl filter r.global_filters in
    if removed
    then record r { global_filters = filters }
    else record r { message_class_filters = remove_each filter r.message_class_filters }

abbrev pub clear_each : List (List ℕ) → List (List ℕ)
clear_each [] = []
clear_each (l ∷ ls) = [] ∷ clear_each ls

unfoldable pub clear : MessageFilterRouter → MessageFilterRouter
clear r = record { global_filters = []; message_class_filters = clear_each r.message_class_filters }

-- The entry of a class.
unfoldable pub class_filters : ℕ → List (List ℕ) → Option (List ℕ)
class_filters n [] = none
class_filters zero (l ∷ ls) = some l
class_filters (suc n) (l ∷ ls) = class_filters n ls

module _ (fs : Filters) where
  unfoldable pub add_filter : ℕ → MessageFilterRouter → Option MessageFilterRouter
  add_filter filter r = elim (fs.supported_message_classes filter) [
    | some classes ↦ do
      ls ← subscribe_all filter classes r.message_class_filters
      some (record r { message_class_filters = ls })
    | none ↦ some (record r { global_filters = r.global_filters ++ (filter ∷ []) })
  ]

  -- `TryFiltersImpl`.
  unfoldable pub try_filters_impl : List ℕ → Message → Bool × List ℕ
  try_filters_impl [] message = (false, [])
  try_filters_impl (f ∷ filters) message =
      let (handled, asked) = try_filters_impl filters message in
      if fs.on_message_received f message then (true, f ∷ []) else (handled, f ∷ asked)

  unfoldable pub try_filters : MessageFilterRouter → Message → Option (Bool × List ℕ)
  try_filters r message =
      let (handled, asked) = try_filters_impl r.global_filters message in
      if handled
      then some (true, asked)
      else message_type message >>= λ type.
          if ltb (type / 65536) last_ipc_msg_start
          then (class_filters (type / 65536) r.message_class_filters >>= λ filters.
              let (handled', asked') = try_filters_impl filters message in
              some (handled', asked ++ asked'))
          else some (false, asked)
