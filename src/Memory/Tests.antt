-- ===== src/Memory/Tests.antt =====
-- Runs of the memory index on small contents.
use pi_recipes.Prelude.{
  ℕ, Text, codes, Bool, true, false, List, [], ◌∷◌, ◌≡◌, refl, ◌≤◌, ◌<◌, arith, all, length, take,
  ltb,
}
use pi_recipes.Memory.{byte_length, prompt_content, bound_lines, escape_xml, read_bounded_file}
use pi_recipes.Memory.Bytes.{prompt_content-le}
use pi_recipes.Memory.Markup.{is_plain, prompt_content-plain, read_xml, read_xml-escape}
use pi_recipes.Memory.Reading.{read_bounded_file-eq}

abbrev test_note : Text
test_note = codes "a<b\nc"

prompt_content-le_example : byte_length (prompt_content test_note false 1 5) ≤ 5
prompt_content-le_example = prompt_content-le test_note false 1 5

prompt_content-plain_example : all is_plain (prompt_content test_note false 1 5) ≡ true
prompt_content-plain_example = prompt_content-plain test_note false 1 5

two_lines : (bound_lines test_note 2).1 ≡ false
unfolding bound_lines pi_recipes.Memory.pop_empty pi_recipes.Memory.split_lines
two_lines = refl

note_fits : byte_length (escape_xml (bound_lines test_note 2).0) ≤ 25
unfolding bound_lines escape_xml byte_length pi_recipes.Prelude.Texts.join
    pi_recipes.Memory.pop_empty pi_recipes.Memory.split_lines pi_recipes.Memory.escape_xml_character
    pi_recipes.Memory.byte_size
note_fits = omega arith

read_xml-escape_example : read_xml 5 (escape_xml test_note) ≡ test_note
read_xml-escape_example = read_xml-escape 5 test_note (omega arith)

read_bounded_file-eq_example :
    ((read_bounded_file (λ b. b) (λ o. 2) test_note 3).0 ≡ take 3 test_note)
    × ((read_bounded_file (λ b. b) (λ o. 2) test_note 3).1 ≡ ltb 3 (length test_note))
read_bounded_file-eq_example = read_bounded_file-eq (λ b. b) (λ o. 2) test_note 3 (λ o. omega arith)
