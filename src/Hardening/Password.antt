-- ===== src/Hardening/Password.antt =====
-- hardening.h, the world password: the comparison on `JOIN`, and where the password comes from.
pub mod Laws
mod Tests
use ewb_server.Base.{
  ℕ, ◌+◌, List, [], ◌∷◌, Bool, true, false, ◌&&◌, Option, some, ◌==◌, if◌then◌else◌, length, Text,
  bit_xor, bit_or,
}

-- The loop, over the longer of the two; a byte past the end of a text counts as 0. The exclusive or
-- of two bytes is a byte, so the casts to `unsigned char` change nothing.
fold_diff : ℕ → Text → Text → ℕ
fold_diff diff [] [] = diff
fold_diff diff (x ∷ xs) [] = fold_diff (bit_or diff (bit_xor x 0)) xs []
fold_diff diff [] (y ∷ ys) = fold_diff (bit_or diff (bit_xor 0 y)) [] ys
fold_diff diff (x ∷ xs) (y ∷ ys) = fold_diff (bit_or diff (bit_xor x y)) xs ys

unfoldable pub const_time_eq : Text → Text → Bool
unfolding fold_diff
const_time_eq a b =
    let sizes : ℕ = if bit_xor (length a) (length b) == 0 then 0 else 1 in fold_diff sizes a b == 0

pub data PasswordSource : Type 0 where
  none argv file env : PasswordSource

pub record PasswordChoice : Type 0 where
  pub source : PasswordSource
  pub value : Text

-- The text before the first line feed.
first_line : Text → Text
first_line [] = []
first_line (c ∷ cs) = let rest = first_line cs in if c == 10 then [] else c ∷ rest

abbrev is_empty : Text → Bool
is_empty [] = true
is_empty (c ∷ cs) = false

-- `while (!line.empty() && line.back() == '\r') line.pop_back();`
drop_returns : Text → Text
drop_returns [] = []
drop_returns (c ∷ cs) =
    let rest = drop_returns cs in if is_empty rest && (c == 13) then [] else c ∷ rest

unfoldable pub password_from_file_text : Text → Text
unfolding first_line drop_returns
password_from_file_text raw = drop_returns (first_line raw)

env_choice : Option Text → PasswordChoice
env_choice Option.none = record { source = none; value = [] }
env_choice (some pw) =
    if is_empty pw
    then record { source = none; value = [] }
    else record { source = env; value = pw }

file_choice : Option Text → Option Text → PasswordChoice
file_choice (some pw) env_pw = record { source = file; value = pw }
file_choice Option.none env_pw = env_choice env_pw

unfoldable pub choose_password : Text → Option Text → Option Text → PasswordChoice
unfolding env_choice file_choice
choose_password argv_pw file_pw env_pw =
    if is_empty argv_pw
    then file_choice file_pw env_pw
    else record { source = argv; value = argv_pw }
