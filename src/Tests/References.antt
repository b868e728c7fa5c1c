-- ===== src/Tests/References.antt =====
-- References that are built from texts with nothing to trim.
use herdr_context.Base.{
  ℕ, refl, inl, inr, Bool-cases, String, ◌==◌, string_eq, nat_eq, if◌then◌else◌,
}
use herdr_context.Conversations.Build.{
  Referenced, AreOfText, new_reference, new_reference-Referenced,
}

abbrev as_it_is : String → String
as_it_is text = text

-- A length that tells the empty text from the others.
abbrev is_filled : String → ℕ
is_filled text = if text == "" then 0 else 1

as_it_is-AreOfText : AreOfText as_it_is is_filled
unfolding nat_eq
as_it_is-AreOfText = record {
  empty_len = λ text. elim (Bool-cases (text == "")) [
    | inl nothing ↦ rw nothing refl
    | inr filled ↦ rw filled refl
  ];
  same_len = λ text same. refl;
}

new_reference-Referenced_example :
    Referenced as_it_is is_filled "omp" "" (new_reference as_it_is is_filled "omp" "")
new_reference-Referenced_example =
    new_reference-Referenced as_it_is is_filled "omp" "" as_it_is-AreOfText
