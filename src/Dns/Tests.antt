-- ===== src/Dns/Tests.antt =====
-- The unit tests of dns.rs, and examples.
use solon.Base.{
  ℕ, ◌+◌, ◌≤◌, ◌≡◌, refl, ◌≢◌, ◌⊎◌, none, some, List, [], ◌∷◌, ◌++◌, map, arith, length, All,
}
use solon.Base.Text.{Bytes, codes, join}
use solon.Dns.Name.{read_name, read_name-encode_labels, encode_labels, label_text, IsLabel}
use solon.Base.Map.{lookup}
use solon.Dns.Table.{remember, remember_all, remember_lem, name_of, max_names}
use solon.Dns.Answers.{parse_answers}

abbrev no_text : Bytes → Bytes
no_text s = []

-- An answer to a question for `api.example.com`: an alias, then an address, with pointers.
abbrev answer : Bytes
answer =
    (0x12 ∷ 0x34 ∷ 0x81 ∷ 0x80 ∷ 0 ∷ 1 ∷ 0 ∷ 2 ∷ 0 ∷ 0 ∷ 0 ∷ 0 ∷ [])
    ++ (encode_labels (codes "api" ∷ codes "Example" ∷ codes "com" ∷ [])
        ++ ((0 ∷ 1 ∷ 0 ∷ 1 ∷ [])
            ++ ((0xC0 ∷ 12 ∷ 0 ∷ 5 ∷ 0 ∷ 1 ∷ 0 ∷ 0 ∷ 0 ∷ 60 ∷ 0 ∷ 6 ∷ [])
                ++ (encode_labels (codes "edge" ∷ [])
                    ++ (0xC0 ∷ 45 ∷ 0 ∷ 1 ∷ 0 ∷ 1 ∷ 0 ∷ 0 ∷ 0 ∷ 60 ∷ 0 ∷ 4 ∷ 93 ∷ 184 ∷ 216 ∷ 34
                        ∷ [])))))

parsed : parse_answers no_text answer ≡ some (codes "api.example.com", codes "93.184.216.34" ∷ [])
unfolding parse_answers encode_labels
parsed = refl

abbrev looping : Bytes
looping = 0 ∷ 0 ∷ 0x80 ∷ 0 ∷ 0 ∷ 1 ∷ 0 ∷ 1 ∷ 0 ∷ 0 ∷ 0 ∷ 0 ∷ 0xC0 ∷ 12 ∷ []

rejected : parse_answers no_text looping ≡ none
unfolding parse_answers
rejected = refl

abbrev two_labels : List Bytes
two_labels = codes "Api" ∷ codes "io" ∷ []

two_labels-IsLabel : All IsLabel two_labels
two_labels-IsLabel = (
  record { some_bytes = omega arith; short = omega arith },
  (record { some_bytes = omega arith; short = omega arith }, tt),
)

read_name-encode_labels_example :
    read_name (codes "xy" ++ (encode_labels two_labels ++ codes "z")) 2
    ≡ some (join b'.' (map label_text two_labels), 2 + length (encode_labels two_labels))
read_name-encode_labels_example =
    read_name-encode_labels two_labels (codes "xy") (codes "z") two_labels-IsLabel

abbrev resolved : List (Bytes × Bytes × ℕ)
resolved = (codes "1", codes "a", 5) ∷ (codes "2", codes "b", 6) ∷ []

remember_lem_example :
    (length (remember_all resolved []) ≤ max_names)
    × (name_of (codes "1") (remember (codes "1") (codes "c") 7 (remember_all resolved []))
        ≡ some (codes "c"))
    × (codes "1" ≢ codes "2"
        → (lookup (codes "2") (remember (codes "1") (codes "c") 7 (remember_all resolved []))
            ≡ lookup (codes "2") (remember_all resolved []))
          ⊎ (lookup (codes "2") (remember (codes "1") (codes "c") 7 (remember_all resolved []))
              ≡ none))
remember_lem_example = remember_lem resolved (codes "1") (codes "c") 7 (codes "2")
