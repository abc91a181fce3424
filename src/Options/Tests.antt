-- ===== src/Options/Tests.antt =====
-- A table of options with one option, at a concrete name.
use mocp.Prelude.{
  ℕ, zero, suc, ◌%◌, ◌≡◌, refl, sym, inl, inr, true, Option, none, some, List, get_elem?, set,
  replicate, arith,
}
use mocp.Files.{chars, same_nocase}
use mocp.Options.{
  Entry, Options, options_max, hash, hash_from, overlaps, find_option, option_bool, option_any,
  init_option, is_valid_symbol,
}
use mocp.Options.Table.{IsTable, find_option-finds}
use mocp.Options.Added.{
  IsOptions, First, used, new_entry, set-IsTable, at_set, init_option-IsOptions,
}

abbrev vacant : List (Option Entry)
vacant = replicate options_max none

get_elem?-vacant : (n i : ℕ) (e : Entry) → get_elem? (replicate n none) i ≡ some (some e) → ⊥
get_elem?-vacant zero i e g = cc
get_elem?-vacant (suc n) zero e g = cc
get_elem?-vacant (suc n) (suc i) e g = get_elem?-vacant n i e g

vacant-IsTable : IsTable vacant
vacant-IsTable = record {
  size = refl;
  hashed = λ i e g. absurd (get_elem?-vacant options_max i e g);
  probed = λ i j e g c b. absurd (get_elem?-vacant options_max i e g);
}

abbrev none_yet : Options
none_yet = record { slots = vacant; options_num = 0 }

none_yet-IsOptions : IsOptions none_yet
unfolding used
none_yet-IsOptions = record { table = vacant-IsTable; counted = refl }

init_option-IsOptions_example :
    (r : Options) × (p : ℕ) × (init_option none_yet (chars "Repeat") option_bool ≡ some (r, p))
    × IsOptions r
    × (find_option r.slots (chars "Repeat") option_bool ≡ some p)
    × ((k : ℕ) (d : Entry)
        → get_elem? vacant k ≡ some (some d)
        → get_elem? r.slots k ≡ some (some d))
unfolding is_valid_symbol
init_option-IsOptions_example =
    init_option-IsOptions none_yet (chars "Repeat") option_bool none_yet-IsOptions (omega arith)
      (omega arith) refl (λ k d g. absurd (get_elem?-vacant options_max k d g))

abbrev place : ℕ
place = hash (chars "Repeat") % options_max

abbrev one_option : List (Option Entry)
one_option = set vacant place (some (new_entry (chars "Repeat") option_bool))

one_option-IsTable : IsTable one_option
unfolding hash_from First
one_option-IsTable =
    set-IsTable vacant (chars "Repeat") option_bool place vacant-IsTable
      (refl, λ j c b. absurd (omega (arith, b)))

only_option :
    (k : ℕ) (d : Entry)
    → get_elem? one_option k ≡ some (some d)
    → overlaps option_any d.kind ≡ true
    → same_nocase (chars "repeat") d.name ≡ true
    → k ≡ place
unfolding hash_from
only_option k d g a b = elim (at_set vacant (chars "Repeat") option_bool place refl k d g) [
  | inl q ↦ sym q.0
  | inr q ↦ absurd (get_elem?-vacant options_max k d q)
]

find_option-finds_example : find_option one_option (chars "repeat") option_any ≡ some place
unfolding hash_from same_nocase
find_option-finds_example =
    find_option-finds one_option (chars "repeat") option_any place
      (new_entry (chars "Repeat") option_bool) one_option-IsTable refl refl refl only_option
