-- ===== src/Ipc/FilterRouter/Removal.antt =====
-- Adding a filter and removing it again.
use lib_hh_old.Common.{
  ℕ, zero, suc, ◌<◌, ◌≡◌, ◌⊎◌, inl, inr, refl, ap, ap₂, true, false, Bool-cases, some, Option-cases,
  List, [], ◌∷◌, ◌++◌, arith, length, All,
}
use lib_hh_old.Common.Int.{pos, to_int}
use lib_hh_old.Ipc.FilterRouter.{
  Filters, MessageFilterRouter, last_ipc_msg_start, ends_with, push_once, subscribe,
  subscribe_class, subscribe_all, remove, contains, remove_filter_impl, remove_each, remove_filter,
  add_filter,
}

-- The router has an entry for every class.
abbrev pub IsWhole : MessageFilterRouter → Type 0
IsWhole r = length r.message_class_filters ≡ last_ipc_msg_start

-- A filter that the router does not hold.
abbrev pub IsAbsent : ℕ → MessageFilterRouter → Type 0
IsAbsent f r =
    (contains f r.global_filters ≡ false) × All (λ l. contains f l ≡ false) r.message_class_filters

-- A list, with the filter added at its end or not.
abbrev MayEnd : ℕ → List ℕ → List ℕ → Type 0
MayEnd f l l' = (l' ≡ l) ⊎ (l' ≡ l ++ (f ∷ []))

abbrev EachMayEnd : ℕ → List (List ℕ) → List (List ℕ) → Type 0
EachMayEnd f [] [] = Unit {0}
EachMayEnd f [] (l' ∷ ls') = ⊥
EachMayEnd f (l ∷ ls) [] = ⊥
EachMayEnd f (l ∷ ls) (l' ∷ ls') = MayEnd f l l' × EachMayEnd f ls ls'

ends_with-append : (f : ℕ) (l : List ℕ) → ends_with f (l ++ (f ∷ [])) ≡ true
unfolding ends_with
ends_with-append f [] = ground arith
ends_with-append f (x ∷ []) = ground arith
ends_with-append f (x ∷ (y ∷ l)) = ends_with-append f (y ∷ l)

push_once-MayEnd : (f : ℕ) (l l' : List ℕ) → MayEnd f l l' → MayEnd f l (push_once f l')
unfolding push_once
push_once-MayEnd f l l' (inl e) = elim (Bool-cases (ends_with f l')) [
  | inl yes_ends ↦ rw yes_ends (inl e)
  | inr no_end ↦ rw no_end (inr (ap (λ t. t ++ (f ∷ [])) e))
]
push_once-MayEnd f l l' (inr e) = rw (e, ends_with-append f l) (inr refl)

refl-EachMayEnd : (f : ℕ) (ls : List (List ℕ)) → EachMayEnd f ls ls
refl-EachMayEnd f [] = tt
refl-EachMayEnd f (l ∷ ls) = (inl refl, refl-EachMayEnd f ls)

subscribe-EachMayEnd :
    (f n : ℕ) (ls ls' : List (List ℕ))
    → EachMayEnd f ls ls'
    → n < length ls
    → (ls'' : List (List ℕ)) × (subscribe f n ls' ≡ some ls'') × EachMayEnd f ls ls''
unfolding subscribe
subscribe-EachMayEnd f n [] ls' h lt = absurd (omega arith)
subscribe-EachMayEnd f n (l ∷ ls) [] h lt = absurd h
subscribe-EachMayEnd f zero (l ∷ ls) (l' ∷ ls') (h, hs) lt =
    (push_once f l' ∷ ls', refl, (push_once-MayEnd f l l' h, hs))
subscribe-EachMayEnd f (suc n) (l ∷ ls) (l' ∷ ls') (h, hs) lt =
    let (ls'', run, done) = subscribe-EachMayEnd f n ls ls' hs (omega arith) in
    (l' ∷ ls'', rw run refl, (h, done))

small_class : (c : ℕ) → c < 2 → to_int c ≡ pos c
unfolding to_int
small_class c h = ground arith

subscribe_all-EachMayEnd :
    (f : ℕ) (cs : List ℕ) (ls ls' : List (List ℕ))
    → EachMayEnd f ls ls'
    → length ls ≡ 2
    → All (λ c. c < 2) cs
    → (ls'' : List (List ℕ)) × (subscribe_all f cs ls' ≡ some ls'') × EachMayEnd f ls ls''
unfolding subscribe_all subscribe_class
subscribe_all-EachMayEnd f [] ls ls' h two hc = (ls', refl, h)
subscribe_all-EachMayEnd f (c ∷ cs) ls ls' h two (hc, hcs) =
    let (m, run, done) = subscribe-EachMayEnd f c ls ls' h (omega arith) in
    let (ls'', run', done') = subscribe_all-EachMayEnd f cs ls m done two hcs in
    (ls'', rw (small_class c hc, run) run', done')

remove_absent : (f : ℕ) (l : List ℕ) → contains f l ≡ false → remove f l ≡ l
unfolding remove contains
remove_absent f [] h = refl
remove_absent f (x ∷ l) h = grind (arith, remove_absent f l)

-- Removing the filter from its end gives the list back.
remove-append : (f : ℕ) (l : List ℕ) → contains f l ≡ false → remove f (l ++ (f ∷ [])) ≡ l
unfolding remove contains
remove-append f [] h = ground arith
remove-append f (x ∷ l) h = grind (arith, remove-append f l)

contains-append : (f : ℕ) (l : List ℕ) → contains f (l ++ (f ∷ [])) ≡ true
unfolding contains
contains-append f [] = ground arith
contains-append f (x ∷ l) = grind (arith, contains-append f l)

remove_filter_impl-append :
    (f : ℕ) (l : List ℕ) → contains f l ≡ false → remove_filter_impl f (l ++ (f ∷ [])) ≡ (l, true)
unfolding remove_filter_impl
remove_filter_impl-append f l h = rw (contains-append f l, remove-append f l h) refl

remove_filter_impl-absent :
    (f : ℕ) (l : List ℕ) → contains f l ≡ false → remove_filter_impl f l ≡ (l, false)
unfolding remove_filter_impl
remove_filter_impl-absent f l h = rw h refl

remove_filter_impl-MayEnd :
    (f : ℕ) (l l' : List ℕ) → contains f l ≡ false → MayEnd f l l' → (remove_filter_impl f l').0 ≡ l
remove_filter_impl-MayEnd f l l' h (inl e) = rw (e, remove_filter_impl-absent f l h) refl
remove_filter_impl-MayEnd f l l' h (inr e) = rw (e, remove_filter_impl-append f l h) refl

remove_each-EachMayEnd :
    (f : ℕ) (ls ls' : List (List ℕ))
    → All (λ l. contains f l ≡ false) ls
    → EachMayEnd f ls ls'
    → remove_each f ls' ≡ ls
remove_each-EachMayEnd f [] [] h each = refl
remove_each-EachMayEnd f [] (l' ∷ ls') h each = absurd each
remove_each-EachMayEnd f (l ∷ ls) [] h each = absurd each
remove_each-EachMayEnd f (l ∷ ls) (l' ∷ ls') (h, hs) (e, es) =
    ap₂ ◌∷◌ (remove_filter_impl-MayEnd f l l' h e) (remove_each-EachMayEnd f ls ls' hs es)

-- A filter that the router does not hold yet and that asks for all messages or for valid classes is
-- added without a fault, a class that it names more than once included, and removing it gives the
-- router back as it was.
pub remove_filter-add_filter :
    (fs : Filters) (f : ℕ) (r : MessageFilterRouter)
    → IsWhole r
    → IsAbsent f r
    → ((classes : List ℕ)
        → fs.supported_message_classes f ≡ some classes
        → All (λ c. c < last_ipc_msg_start) classes)
    → (r' : MessageFilterRouter) × (add_filter fs f r ≡ some r') × (remove_filter f r' ≡ r)
unfolding add_filter remove_filter
remove_filter-add_filter fs f r whole (no_global, no_class) valid =
    elim (Option-cases (fs.supported_message_classes f)) [
      | inl all ↦ (
        record r { global_filters = r.global_filters ++ (f ∷ []) },
        rw (all, add_filter) refl,
        rw (remove_filter_impl-append f r.global_filters no_global) refl,
      )
      | inr (classes, some_classes) ↦
          let (ls, run, each) =
            subscribe_all-EachMayEnd f classes r.message_class_filters r.message_class_filters
              (refl-EachMayEnd f r.message_class_filters) whole (valid classes some_classes) in
          (
            record r { message_class_filters = ls },
            rw (some_classes, run, add_filter) refl,
            rw (remove_filter_impl-absent f r.global_filters no_global) (
                ap (λ l. record r { message_class_filters = l })
                  (remove_each-EachMayEnd f r.message_class_filters ls no_class each)),
          )
    ]
