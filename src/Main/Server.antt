-- ===== src/Main/Server.antt =====
-- `main` of the server: server/src/main.cpp.
use axn_chat_app.Prelude.{
  ℕ, suc, Bool, true, ◌||◌, Option, none, some, List, [], ◌∷◌, ◌++◌, Bytes, codes, leb, ltb,
  if◌then◌else◌,
}
use axn_chat_app.Main.{ℤ, pos, negsuc, Stoi, value, stoi}

-- The value that `main` returns, the lines on the error stream, and the port on which it has run a
-- server before it returns.
pub record ServerExit : Type 0 where
  pub code : ℕ
  pub cerr : List Bytes
  pub served : Option ℕ

abbrev pub fails : Bytes → ServerExit
fails text = record { code = 1; cerr = text ∷ []; served = none }

-- `port <= 0 || port > 65535`
abbrev pub is_no_port : ℤ → Bool
is_no_port (pos n) = leb n 0 || ltb 65535 n
is_no_port (negsuc n) = true

abbrev pub absolute : ℤ → ℕ
absolute (pos n) = n
absolute (negsuc n) = suc n

abbrev pub serve : ℤ → ServerExit
serve port =
    if is_no_port port
    then fails (codes "Error: Port number must be between 1 and 65535.")
    else record { code = 0; cerr = []; served = some (absolute port) }

-- `what` is the text of a standard exception.
abbrev pub serve_parsed : (Stoi → Bytes) → Stoi → ServerExit
serve_parsed what (value port) = serve port
serve_parsed what thrown = fails (codes "Error: Invalid port number: " ++ what thrown)

abbrev pub program_name : List Bytes → Bytes
program_name [] = []
program_name (name ∷ args) = name

-- `argc` is the length of `argv`.
unfoldable pub main : (Stoi → Bytes) → List Bytes → ServerExit
main what (name ∷ port ∷ []) = serve_parsed what (stoi port)
main what argv = fails (codes "Usage: " ++ (program_name argv ++ codes " <port>"))
