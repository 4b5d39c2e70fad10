-- ===== src/Cycle/Tests.antt =====
-- A block of three bytes, its links and its table.
use libqbz.Base.{ℕ, ◌≡◌, ◌≢◌, refl, arith, List, [], ◌∷◌, get_or, some}
use libqbz.Base.{if◌then◌else◌, ◌==◌}
use libqbz.Cycle.{Links, link_loop, make_cftab, get_fast, index_into_f, set_ll, get_ll}
use libqbz.Cycle.Chain.{get_fast-link_loop, place, byte_at}
use libqbz.Cycle.Nibbles.{get_ll-set_ll}
use libqbz.Cycle.Search.{Holds, index_into_f-Holds}
use libqbz.Huffman.Counts.{count}

abbrev three : List ℕ
three = 98 ∷ 97 ∷ 98 ∷ []

abbrev counts : ℕ → ℕ
counts k = count k three

-- from the place of the first byte, which is 1, to the byte there and to the index 0
get_fast-link_loop_example :
    get_fast 1 (link_loop 3 0 (make_cftab counts) (λ p. get_or three p 0)) (place three 0)
    ≡ some (byte_at three (place three 0), 0)
get_fast-link_loop_example =
    get_fast-link_loop three 1 0 counts (λ p. get_or three p 0) (omega arith)
      (omega arith, (omega arith, (omega arith, tt))) (omega arith) (omega arith) (λ k. refl)
      (λ p h. refl)

-- one byte 97 and two bytes 98
abbrev sums : ℕ → ℕ
sums k = if k == 256 then 3 else if k == 98 then 1 else 0

index_into_f-Holds_example : Holds sums 0 (index_into_f 0 sums)
index_into_f-Holds_example = index_into_f-Holds 0 sums (omega arith) (omega arith)

abbrev no_links : Links
no_links = record { ll16 = λ i. 0; ll4 = λ i. 0xff }

get_ll-set_ll_example :
    (get_ll (set_ll no_links 5 0x9_1234) 5 ≡ 0x9_1234)
    × (◌≢◌ {A = ℕ} 4 5 → get_ll (set_ll no_links 5 0x9_1234) 4 ≡ get_ll no_links 4)
get_ll-set_ll_example = get_ll-set_ll no_links 5 0x9_1234 4 (omega arith)
