-- ===== src/Logger.antt =====
-- `Logger`: common/include/common/logger.h. The local time is an argument, and what is printed is
-- recorded by stream. An argument of a log call is the text that `<<` makes of it.
pub mod Format
use axn_chat_app.Prelude.{
  ℕ, suc, ◌+◌, Bool, false, ◌&&◌, Option, none, some, List, [], ◌∷◌, ◌++◌, Bytes, codes, take, drop,
  leb, ◌==◌, if◌then◌else◌,
}

pub data LogLevel : Type 0 where
  debug info warning error critical : LogLevel

-- The order of the enumerators.
abbrev pub rank : LogLevel → ℕ
rank debug = 0
rank info = 1
rank warning = 2
rank error = 3
rank critical = 4

pub record Logger : Type 0 where
  pub level : LogLevel
  pub cout : List Bytes
  pub cerr : List Bytes

-- `Logger::Logger`
abbrev pub new_logger : Logger
new_logger = record { level = info; cout = []; cerr = [] }

abbrev pub set_level : Logger → LogLevel → Logger
set_level logger level = record logger { level = level }

abbrev pub level_to_string : LogLevel → Bytes
level_to_string debug = codes "DEBUG"
level_to_string info = codes "INFO"
level_to_string warning = codes "WARNING"
level_to_string error = codes "ERROR"
level_to_string critical = codes "CRITICAL"

abbrev pub starts_placeholder : Bytes → Bool
starts_placeholder [] = false
starts_placeholder (a ∷ []) = false
starts_placeholder (a ∷ b ∷ rest) = a == b'{' && b == b'}'

abbrev pub moved : Option ℕ → Option ℕ
moved none = none
moved (some n) = some (suc n)

-- `format_str.find("{}")`
unfoldable pub find_placeholder : Bytes → Option ℕ
find_placeholder [] = none
find_placeholder (b ∷ bs) =
    let behind = find_placeholder bs in if starts_placeholder (b ∷ bs) then some 0 else moved behind

-- The recursive overload of `format_message` from the place of the placeholder, given the call on
-- the arguments that are left.
abbrev pub format_at : (Bytes → Bytes) → Bytes → Bytes → Option ℕ → Bytes
format_at next format_str value none = format_str
format_at next format_str value (some placeholder_pos) =
    take placeholder_pos format_str ++ (value ++ next (drop (placeholder_pos + 2) format_str))

-- What both overloads of `format_message` put into the stream.
unfoldable pub format_message : Bytes → List Bytes → Bytes
format_message message [] = message
format_message format_str (value ∷ args) =
    format_at (λ rest. format_message rest args) format_str value (find_placeholder format_str)

abbrev pub in_brackets : Bytes → Bytes
in_brackets text = codes "[" ++ (text ++ codes "] ")

unfoldable pub log : Logger → Bytes → LogLevel → Bytes → Bytes → List Bytes → Logger
log logger now level component message args =
    if leb (rank logger.level) (rank level)
    then (let oss =
          in_brackets now
          ++ (in_brackets (level_to_string level)
              ++ (in_brackets component ++ format_message message args)) in
        if leb (rank error) (rank level)
        then record logger { cerr = logger.cerr ++ oss ∷ [] }
        else record logger { cout = logger.cout ++ oss ∷ [] })
    else logger
