-- ===== src/Ipc/ParamTraits/Refusals.antt =====
-- The lengths that the reads of containers refuse.
use lib_hh_old.Common.{ℕ, ◌-◌, ◌/◌, ◌^◌, ◌≤◌, ◌≡◌, refl, none, Bool, List, ◌++◌, le→leb}
use lib_hh_old.Common.Bytes.{le_bytes}
use lib_hh_old.Common.Int.{ℤ, IsInt, pos, negsuc, from_int}
use lib_hh_old.Base.Pickle.Layout.{padded}
use lib_hh_old.Base.PickleIterator.{PickleIterator, read_length}
use lib_hh_old.Base.PickleIterator.Reads.{Ahead}
use lib_hh_old.Base.PickleItems.Read.{read_int-Returns}
use lib_hh_old.Ipc.ParamTraits.{ParamTraits, read_vector, read_bools, read_set, read_map}

-- The length that lies ahead, as a container writes it.
abbrev pub StatesLength : PickleIterator → ℤ → List ℕ → Type 0
StatesLength it z rest = Ahead it (padded (le_bytes 4 (from_int z)) ++ rest)

-- Where a negative int lies ahead as the length, the reads of std::vector, std::vector<bool>,
-- std::set and std::map fail, whatever objects they read into and whatever the elements are.
pub read_containers-refuse_negative :
    {A K V : Type 0} (t : ParamTraits A) (less : A → A → Bool) (key : ParamTraits K)
    (value : ParamTraits V) (key_less : K → K → Bool) (n : ℕ) (rest : List ℕ) (it : PickleIterator)
    (xs : List A) (bools : List Bool) (pairs : List (K × V))
    → IsInt (negsuc n)
    → StatesLength it (negsuc n) rest
    → ((read_vector t xs it).0 ≡ none)
      × ((read_bools bools it).0 ≡ none)
      × ((read_set less t xs it).0 ≡ none)
      × ((read_map key_less key value pairs it).0 ≡ none)
unfolding read_vector read_bools read_set read_map read_length
read_containers-refuse_negative t less key value key_less n rest it xs bools pairs h ahead =
    let (it', run, _) = read_int-Returns (negsuc n) rest it h ahead in
    (rw run refl, rw run refl, rw run refl, rw run refl)

-- A vector of INT_MAX / sizeof elements or more is refused before an element is read.
pub read_vector-refuses_size :
    {A : Type 0} (t : ParamTraits A) (n : ℕ) (rest : List ℕ) (it : PickleIterator) (xs : List A)
    → IsInt (pos n)
    → StatesLength it (pos n) rest
    → (2 ^ 31 - 1) / t.sizeof_param ≤ n
    → (read_vector t xs it).0 ≡ none
unfolding read_vector read_length
read_vector-refuses_size t n rest it xs h ahead big =
    let (it', run, _) = read_int-Returns (pos n) rest it h ahead in rw (run, le→leb _ n big) refl
