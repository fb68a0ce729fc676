-- ===== src/Logger/Format.antt =====
-- `Logger::format_message` against the pieces of its format, and what `log` prints.
use axn_chat_app.Prelude.{
  ℕ, suc, ◌+◌, ◌≡◌, refl, ap, ◌∙◌, Option, none, some, List, [], ◌∷◌, ◌++◌, Bytes, codes, length,
  drop, All, leb, ◌==◌, if◌then◌else◌, arith, take-length_append, append_assoc, Bool-cases, inl,
  inr,
}
use axn_chat_app.Logger.{
  LogLevel, Logger, rank, error, critical, find_placeholder, starts_placeholder, moved,
  format_message, log, level_to_string, in_brackets,
}

-- A text between placeholders has none in it.
abbrev pub IsPlain : Bytes → Type 0
IsPlain piece = find_placeholder piece ≡ none

-- A format: a piece, and the others each behind a placeholder.
unfoldable pub format_of : Bytes → List Bytes → Bytes
format_of piece [] = piece
format_of piece (next ∷ pieces) = piece ++ (b'{' ∷ b'}' ∷ format_of next pieces)

-- Each placeholder gives way to the next argument. One that has none stays; an argument that has
-- no placeholder is left out.
unfoldable pub filled : Bytes → List Bytes → List Bytes → Bytes
filled piece [] args = piece
filled piece (next ∷ pieces) [] = format_of piece (next ∷ pieces)
filled piece (next ∷ pieces) (a ∷ args) = piece ++ (a ++ filled next pieces args)

moved-none : (o : Option ℕ) → moved o ≡ none → o ≡ none
moved-none none e = refl
moved-none (some n) e = cc

find-plain :
    (piece rest : Bytes)
    → IsPlain piece
    → find_placeholder (piece ++ (b'{' ∷ b'}' ∷ rest)) ≡ some (length piece)
unfolding find_placeholder
find-plain [] rest h = refl
find-plain (b ∷ []) rest h = elim (Bool-cases (b == b'{')) [ inl e ↦ rw e refl | inr e ↦ rw e refl ]
find-plain (b ∷ c ∷ bs) rest h = elim (Bool-cases (starts_placeholder (b ∷ c ∷ bs))) [
  | inl here ↦ let found : some 0 ≡ none = rw here at h in absurd (cc found)
  | inr there ↦
      let behind : IsPlain (c ∷ bs) = moved-none (find_placeholder (c ∷ bs)) (rw there at h) in
      rw (there, find-plain (c ∷ bs) rest behind) refl
]

drop-placeholder :
    (piece rest : Bytes) → drop (length piece + 2) (piece ++ (b'{' ∷ b'}' ∷ rest)) ≡ rest
drop-placeholder [] rest = refl
drop-placeholder (b ∷ bs) rest =
    let next : suc (length bs) + 2 ≡ suc (length bs + 2) = omega arith in
    rw next (drop-placeholder bs rest)

-- A
pub format_message-filled :
    (piece : Bytes) (pieces args : List Bytes)
    → IsPlain piece
    → All IsPlain pieces
    → format_message (format_of piece pieces) args ≡ filled piece pieces args
unfolding format_message format_of filled
format_message-filled piece [] [] h hs = refl
format_message-filled piece [] (a ∷ args) h hs = rw h refl
format_message-filled piece (next ∷ pieces) [] h hs = refl
format_message-filled piece (next ∷ pieces) (a ∷ args) h hs =
    rw
      (
        find-plain piece (format_of next pieces) h,
        take-length_append piece (b'{' ∷ b'}' ∷ format_of next pieces),
        drop-placeholder piece (format_of next pieces),
        format_message-filled next pieces args hs.0 hs.1,
      )
      refl

-- What a call prints, where it prints anything: the time, the level and the component in brackets,
-- and the message with its arguments filled in.
abbrev pub line : Bytes → LogLevel → Bytes → Bytes → List Bytes → List Bytes → Bytes
line now level component piece pieces args =
    codes "["
    ++ (now
        ++ (codes "] ["
            ++ (level_to_string level
                ++ (codes "] [" ++ (component ++ (codes "] " ++ filled piece pieces args))))))

in_brackets-append :
    (text rest : Bytes) → in_brackets text ++ rest ≡ codes "[" ++ (text ++ (codes "] " ++ rest))
in_brackets-append text rest = ap (λ t. codes "[" ++ t) (append_assoc text (codes "] ") rest)

-- Errors and worse go to the error stream, all else to the output.
abbrev pub print : Logger → LogLevel → Bytes → Logger
print logger error text = record logger { cerr = logger.cerr ++ text ∷ [] }
print logger critical text = record logger { cerr = logger.cerr ++ text ∷ [] }
print logger _ text = record logger { cout = logger.cout ++ text ∷ [] }

bracketed : Bytes → LogLevel → Bytes → Bytes → Bytes
bracketed now level component message =
    in_brackets now ++ (in_brackets (level_to_string level) ++ (in_brackets component ++ message))

bracketed-line :
    (now : Bytes) (level : LogLevel) (component piece : Bytes) (pieces args : List Bytes)
    → IsPlain piece
    → All IsPlain pieces
    → bracketed now level component (format_message (format_of piece pieces) args)
      ≡ line now level component piece pieces args
unfolding bracketed
bracketed-line now level component piece pieces args h hs =
    rw
      (
        format_message-filled piece pieces args h hs,
        in_brackets-append component (filled piece pieces args),
        in_brackets-append (level_to_string level) _,
        in_brackets-append now _,
      )
      refl

log-print :
    (logger : Logger) (now : Bytes) (level : LogLevel) (component message : Bytes)
    (args : List Bytes)
    → log logger now level component message args ≡ (
        if leb (rank logger.level) (rank level)
        then print logger level (bracketed now level component (format_message message args))
        else logger)
unfolding log bracketed
log-print logger now error component message args = refl
log-print logger now critical component message args = refl
log-print logger now _ component message args = refl

-- A call at or above the logger's level prints one line, on the error stream from ERROR on and on
-- the output otherwise: time, level and component in brackets, and the pieces of the format with
-- the arguments between them, where an argument is not read for placeholders, a placeholder
-- without an argument stays, and an argument without a placeholder is left out. Below the level
-- nothing is printed.
pub log-line :
    (logger : Logger) (now : Bytes) (level : LogLevel) (component piece : Bytes)
    (pieces args : List Bytes)
    → IsPlain piece
    → All IsPlain pieces
    → log logger now level component (format_of piece pieces) args ≡ (
        if leb (rank logger.level) (rank level)
        then print logger level (line now level component piece pieces args)
        else logger)
log-line logger now level component piece pieces args h hs =
    log-print logger now level component (format_of piece pieces) args
    ∙ ap (λ t. if leb (rank logger.level) (rank level) then print logger level t else logger)
        (bracketed-line now level component piece pieces args h hs)
