-- ===== src/Robot/Router.antt =====
-- server/app/services/command_router.py. A text is the list of its code points here, in lower case
-- where it is ASCII: no other letter has a lower case that a prefix could end in, save `İ`, whose
-- lower case ends in a combining dot, which is no separator.
pub mod Commands
use open_yzj.Prelude.{
  Bool, List, String, [], code, false, if◌then◌else◌, leb, null_list, strip, true, ℕ, ◌&&◌, ◌+◌,
  ◌=?◌, ◌||◌, ◌∷◌,
}

-- the handlers, by their modules
pub data Handler : Type 0 where
  ai api echo mys4s : Handler

abbrev pub handler_name : Handler → String
handler_name ai = "ai"
handler_name api = "api_call"
handler_name echo = "echo"
handler_name mys4s = "mys4s"

abbrev pub lower_code : ℕ → ℕ
lower_code n = if leb 65 n && leb n 90 then n + 32 else n

-- `s.lower()`
unfoldable pub lower : String → List ℕ
lower String.[] = []
lower (String.◌∷◌ c s) = lower_code (code c) ∷ lower s

-- `ch in _SEPARATORS`: a blank, a tab, a colon or a full-width colon
abbrev pub is_separator : ℕ → Bool
is_separator n = (n =? 32) || (n =? 9) || (n =? 58) || (n =? 65306)

-- `text == p or (text.startswith(p) and text[len(p):len(p) + 1] in _SEPARATORS)`
unfoldable pub is_command : List ℕ → List ℕ → Bool
is_command [] [] = true
is_command [] (c ∷ text) = is_separator c
is_command (p ∷ ps) [] = false
is_command (p ∷ ps) (c ∷ text) = (c =? p) && is_command ps text

-- `_HANDLERS`
abbrev pub handlers : List (List String × Handler)
handlers = ("/ai" ∷ "#ai" ∷ [], ai) ∷ ("/api" ∷ "#api" ∷ [], api) ∷ ("/echo" ∷ [], echo) ∷ []

abbrev pub any_command : List String → List ℕ → Bool
any_command [] text = false
any_command (p ∷ ps) text = is_command (lower p) text || any_command ps text

abbrev pub first_handler : List (List String × Handler) → List ℕ → Handler
first_handler [] text = mys4s
first_handler ((prefixes, handler) ∷ more) text =
    if any_command prefixes text then handler else first_handler more text

-- `route`
unfoldable pub route : String → Handler
unfolding is_command lower strip
route content =
    let text = lower (strip content) in
    if null_list text then mys4s else first_handler handlers text
