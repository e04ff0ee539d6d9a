-- ===== src/Aliases/Phone.antt =====
-- services/aliases/aliases.go: the texts of numbers, codes and names.
use Prim.Native.Char.{Char, code}
use Prim.Native.String.{String, count, ◌++◌}
use aerarium_agentic_banking.Common.{
  ℕ, ◌/◌, ◌%◌, Bool, true, false, ◌&&◌, ◌||◌, Option, none, some, List, [], ◌∷◌, leb, eqb,
  if◌then◌else◌,
}

abbrev pub is_digit : Char → Bool
is_digit c = leb b'0' (code c) && leb (code c) b'9'

unfoldable pub digits_of : String → String
digits_of String.[] = String.[]
digits_of (String.◌∷◌ c s) =
    let rest = digits_of s in if is_digit c then String.◌∷◌ c rest else rest

-- The digits after the country's code, which is 51.
unfoldable pub without_country : String → String
without_country (String.◌∷◌ c (String.◌∷◌ d s)) =
    if eqb (count s) 9 && (eqb (code c) b'5' && eqb (code d) b'1')
    then s
    else String.◌∷◌ c (String.◌∷◌ d s)
without_country s = s

unfoldable pub is_mobile : String → Bool
is_mobile String.[] = false
is_mobile (String.◌∷◌ c s) = eqb (count s) 8 && eqb (code c) b'9'

unfoldable pub checked_phone : String → Option String
checked_phone digits = if is_mobile digits then some ("+51" ++ digits) else none

unfoldable pub normalize_phone : String → Option String
normalize_phone input = checked_phone (without_country (digits_of input))

abbrev digit_text : ℕ → String
digit_text n =
    if eqb n 0
    then "0"
    else if eqb n 1
    then "1"
    else if eqb n 2
    then "2"
    else if eqb n 3
    then "3"
    else if eqb n 4
    then "4"
    else if eqb n 5
    then "5"
    else if eqb n 6
    then "6"
    else if eqb n 7
    then "7"
    else if eqb n 8
    then "8"
    else "9"

-- The six digits of a number below a million.
unfoldable pub six_digits : ℕ → String
six_digits n =
    digit_text (n / 100000 % 10)
    ++ (digit_text (n / 10000 % 10)
        ++ (digit_text (n / 1000 % 10)
            ++ (digit_text (n / 100 % 10) ++ (digit_text (n / 10 % 10) ++ digit_text (n % 10)))))

-- The white space of Unicode.
abbrev is_space : ℕ → Bool
is_space c =
    (leb 9 c && leb c 13)
    || (eqb c 32
        || (eqb c 133
            || (eqb c 160
                || (eqb c 5760
                    || ((leb 8192 c && leb c 8202)
                        || (eqb c 8232
                            || (eqb c 8233 || (eqb c 8239 || (eqb c 8287 || eqb c 12288)))))))))

before_parenthesis : String → String
before_parenthesis String.[] = String.[]
before_parenthesis (String.◌∷◌ c s) =
    let rest = before_parenthesis s in if eqb (code c) b'(' then String.[] else String.◌∷◌ c rest

-- A character in front of the first word, which `inside` says the next character belongs to.
add_to_word : Char → Bool → List String → List String
add_to_word c true (w ∷ l) = String.◌∷◌ c w ∷ l
add_to_word c true [] = String.◌∷◌ c String.[] ∷ []
add_to_word c false l = String.◌∷◌ c String.[] ∷ l

begins_word : String → Bool
begins_word String.[] = false
begins_word (String.◌∷◌ c s) = if is_space (code c) then false else true

fields : String → List String
fields String.[] = []
fields (String.◌∷◌ c s) =
    let rest = fields s in if is_space (code c) then rest else add_to_word c (begins_word s) rest

initial : String → String
initial String.[] = String.[]
initial (String.◌∷◌ c s) = String.◌∷◌ c String.[]

-- The word before the last one.
last_but_one : String → List String → String
last_but_one w [] = w
last_but_one w (v ∷ []) = w
last_but_one w (v ∷ (u ∷ l)) = last_but_one v (u ∷ l)

masked : List String → String
masked [] = ""
masked (w ∷ []) = w
masked (w ∷ (v ∷ [])) = w ++ (" " ++ (initial v ++ "."))
masked (w ∷ (v ∷ (u ∷ l))) = w ++ (" " ++ (initial (last_but_one v (u ∷ l)) ++ "."))

unfoldable pub mask_name : String → String
unfolding before_parenthesis fields add_to_word begins_word masked initial last_but_one
mask_name name = masked (fields (before_parenthesis name))
