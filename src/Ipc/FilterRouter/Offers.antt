-- ===== src/Ipc/FilterRouter/Offers.antt =====
-- Which filters are asked about a message, and in which order.
use lib_hh_old.Common.{
  ℕ, zero, suc, ◌≤◌, ◌<◌, ◌/◌, ◌≡◌, ◌⊎◌, inl, inr, refl, ap, Bool, true, false, Bool-cases, some,
  none, List, [], ◌∷◌, ◌++◌, arith, ltb, if◌then◌else◌, length, All, append-nil, ltb→lt, not-ltb→le,
}
use lib_hh_old.Ipc.Message.{Message, message_type}
use lib_hh_old.Ipc.FilterRouter.{
  Filters, MessageFilterRouter, class_filters, try_filters_impl, try_filters,
}
use lib_hh_old.Ipc.FilterRouter.Removal.{IsWhole}

-- The filters that a message of a type concerns: the global ones, and then those of its class.
unfoldable pub concerned : MessageFilterRouter → ℕ → List ℕ
concerned r type =
    r.global_filters
    ++ elim (class_filters (type / 65536) r.message_class_filters) [ none ↦ [] | some l ↦ l ]

-- They are asked in order up to the first that takes the message.
unfoldable pub Offered : Filters → Message → List ℕ → Bool × List ℕ → Type 0
Offered fs message filters (handled, asked) =
    ((handled ≡ false)
      × (asked ≡ filters)
      × All (λ f. fs.on_message_received f message ≡ false) filters)
    ⊎ ((before : List ℕ) × (f : ℕ) × (after : List ℕ) × (handled ≡ true)
        × (filters ≡ before ++ (f ∷ after))
        × (asked ≡ before ++ (f ∷ []))
        × All (λ g. fs.on_message_received g message ≡ false) before
        × (fs.on_message_received f message ≡ true))

module _ (fs : Filters) (message : Message) where
  try_filters_impl-Offered :
      (filters : List ℕ) → Offered fs message filters (try_filters_impl fs filters message)
  unfolding try_filters_impl Offered
  try_filters_impl-Offered [] = inl (refl, refl, tt)
  try_filters_impl-Offered (f ∷ filters) = elim (Bool-cases (fs.on_message_received f message)) [
    | inl takes ↦ rw takes (inr ([], f, filters, refl, refl, refl, tt, takes))
    | inr declines ↦ elim (try_filters_impl-Offered filters) [
      | inl (h, a, all) ↦ rw declines (inl (h, ap (◌∷◌ f) a, (refl, all)))
      | inr (before, g, after, h, split, a, all, takes) ↦
          rw declines
            (inr (f ∷ before, g, after, h, ap (◌∷◌ f) split, ap (◌∷◌ f) a, (declines, all), takes))
    ]
  ]

  -- Trying one list and then, where nothing took the message, another is trying both.
  try_filters_impl-append :
      (xs ys : List ℕ)
      → try_filters_impl fs (xs ++ ys) message ≡ (
          if (try_filters_impl fs xs message).0 then try_filters_impl fs xs message else (
            (try_filters_impl fs ys message).0,
            (try_filters_impl fs xs message).1 ++ (try_filters_impl fs ys message).1,
          ))
  unfolding try_filters_impl
  try_filters_impl-append [] ys = refl
  try_filters_impl-append (f ∷ xs) ys = elim (Bool-cases (fs.on_message_received f message)) [
    | inl takes ↦ rw takes refl
    | inr declines ↦ elim (Bool-cases (try_filters_impl fs xs message).0) [
      | inl handled ↦
          rw (declines, try_filters_impl-append xs ys, handled)
            (ap (λ b. (b, f ∷ (try_filters_impl fs xs message).1)) handled)
      | inr not_handled ↦ rw (declines, try_filters_impl-append xs ys, not_handled) refl
    ]
  ]

class_filters-some :
    (n : ℕ) (ls : List (List ℕ)) → n < length ls → (l : List ℕ) × (class_filters n ls ≡ some l)
unfolding class_filters
class_filters-some n [] h = absurd (omega arith)
class_filters-some zero (l ∷ ls) h = (l, refl)
class_filters-some (suc n) (l ∷ ls) h = class_filters-some n ls (omega arith)

class_filters-none : (n : ℕ) (ls : List (List ℕ)) → length ls ≤ n → class_filters n ls ≡ none
unfolding class_filters
class_filters-none n [] h = refl
class_filters-none zero (l ∷ ls) h = absurd (omega arith)
class_filters-none (suc n) (l ∷ ls) h = class_filters-none n ls (omega arith)

try_filters-concerned :
    (fs : Filters) (r : MessageFilterRouter) (message : Message) (type : ℕ)
    → IsWhole r
    → message_type message ≡ some type
    → try_filters fs r message ≡ some (try_filters_impl fs (concerned r type) message)
unfolding try_filters concerned
try_filters-concerned fs r message type whole typed = elim (Bool-cases (ltb (type / 65536) 2)) [
  | inl valid ↦
      let (l, e) =
        class_filters-some (type / 65536) r.message_class_filters
          (omega (arith, whole, ltb→lt _ _ valid)) in
      elim (Bool-cases (try_filters_impl fs r.global_filters message).0) [
        | inl handled ↦ rw (e, try_filters_impl-append fs message r.global_filters l, handled) refl
        | inr not_handled ↦
            rw
              (
                e,
                try_filters_impl-append fs message r.global_filters l,
                not_handled,
                typed,
                valid,
                e,
              )
              refl
      ]
  | inr beyond ↦
      let e =
        class_filters-none (type / 65536) r.message_class_filters
          (omega (arith, whole, not-ltb→le _ _ beyond)) in
      let same : r.global_filters ++ [] ≡ r.global_filters = append-nil r.global_filters in
      elim (Bool-cases (try_filters_impl fs r.global_filters message).0) [
        | inl handled ↦ rw (e, same, handled) refl
        | inr not_handled ↦ rw (e, same, not_handled, typed, beyond) refl
      ]
]

-- TryFilters, on a message with a header and a router that has an entry for every class, asks the
-- filters that the message concerns, the global ones first and then those of its class, in order up
-- to the first that takes the message, and answers whether there is one.
pub try_filters-Offered :
    (fs : Filters) (r : MessageFilterRouter) (message : Message) (type : ℕ)
    → IsWhole r
    → message_type message ≡ some type
    → (result : Bool × List ℕ) × (try_filters fs r message ≡ some result)
      × Offered fs message (concerned r type) result
try_filters-Offered fs r message type whole typed = (
  try_filters_impl fs (concerned r type) message,
  try_filters-concerned fs r message type whole typed,
  try_filters_impl-Offered fs message (concerned r type),
)
