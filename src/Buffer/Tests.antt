-- ===== src/Buffer/Tests.antt =====
-- Tests of the buffer, and its theorems at concrete inputs.
use claire.Prelude.{ℕ, ◌≡◌, refl, [], ◌∷◌, ◌++◌, some, none, arith, Returns, ◌>>=◌, List}
use claire.Buffer.{Buffer, content, empty, append, consume, find_crlf, peek_int32}
use claire.Buffer.Parts.{Holds}
use claire.Buffer.Content.{append-Holds, consume_too_much, empty-Holds}
use claire.Buffer.Crlf.{FirstCrlf, find_crlf-FirstCrlf}
use claire.Buffer.Ints.{read_three-write_three, write_three, read_three}

-- "ab\r\nc" with 3 bytes free in front and 2 behind.
abbrev sample : Buffer
sample = record {
  bytes = 0 ∷ 0 ∷ 0 ∷ b'a' ∷ b'b' ∷ 13 ∷ 10 ∷ b'c' ∷ 0 ∷ 0 ∷ [];
  reader_index = 3;
  writer_index = 8;
}

abbrev sample_content : List ℕ
sample_content = b'a' ∷ b'b' ∷ 13 ∷ 10 ∷ b'c' ∷ []

sample-Holds : Holds sample_content sample
unfolding content
sample-Holds = record { valid = omega arith; holds = refl }

crlf_of_sample : find_crlf sample ≡ some 2
unfolding find_crlf
crlf_of_sample = refl

int_of_sample : peek_int32 sample ≡ some 0x61620d0a
unfolding peek_int32
int_of_sample = refl

append-Holds_example :
    Returns (append (1 ∷ 2 ∷ 3 ∷ []) sample) (Holds (sample_content ++ 1 ∷ 2 ∷ 3 ∷ []))
append-Holds_example = append-Holds sample_content (1 ∷ 2 ∷ 3 ∷ []) sample sample-Holds

consume_too_much_example : consume 6 sample ≡ none
consume_too_much_example = consume_too_much sample_content 6 sample sample-Holds (omega arith)

read_three-write_three_example :
    Returns
      (write_three 70000 513 7 empty >>= read_three)
      (λ r. (r.0 ≡ 70000) × (r.1 ≡ 513) × (r.2 ≡ 7) × Holds [] r.3)
read_three-write_three_example =
    read_three-write_three 70000 513 7 empty (omega arith) (omega arith) empty-Holds

find_crlf-FirstCrlf_example : FirstCrlf (content sample) 0 (find_crlf sample)
find_crlf-FirstCrlf_example = find_crlf-FirstCrlf sample
