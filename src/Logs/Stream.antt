-- ===== src/Logs/Stream.antt =====
-- The stream of log lines: `tailSsh` of web/src/logs/client.ts. The stream is the texts that the
-- decoder gives for the reads of the response, and `JSON.parse` is a parameter, which is `none` where
-- it throws.
pub mod Chunks
pub mod Messages
use dbtabase_workbench.Common.{
  ℕ, Bool, true, false, not, ◌&&◌, ◌||◌, Option, none, some, List, [], ◌∷◌, ◌++◌, Text, text, ◌==◌,
  find, drop, if◌then◌else◌,
}
use dbtabase_workbench.Redis.Split.{split}
use dbtabase_workbench.Table.Value.{starts_with}

-- One unit more before the first part.
abbrev pub push : ℕ → List Text × Text → List Text × Text
push c ([], rest) = ([], c ∷ rest)
push c (p ∷ ps, rest) = ((c ∷ p) ∷ ps, rest)

abbrev pub line_feed : ℕ
line_feed = 10

-- `buffer.split('\n\n')`, with the last part, which `pop` takes off, by itself.
unfoldable pub cut : Text → List Text × Text
cut [] = ([], [])
cut (c ∷ []) = ([], c ∷ [])
cut (c ∷ d ∷ s) =
    let after = cut s in
    let more = cut (d ∷ s) in
    if c == line_feed && d == line_feed then ([] ∷ after.0, after.1) else push c more

-- The text of the first line of a part that begins with `data: `.
unfoldable pub data_of : Text → Option Text
data_of chunk = elim (find (starts_with (text "data: ")) (split line_feed chunk)) [
  | none ↦ none
  | some line ↦ some (drop 6 line)
]

-- What a stream gives: the events that are passed on, and whether all of it could be read.
pub record Delivered {ℓ} (E : Type ℓ) : Type ℓ where
  pub events : List E
  pub whole : Bool

module _ {ℓ} {E : Type ℓ} where
  -- An event before the others; an error of `JSON.parse` leaves the loop.
  abbrev pub after_event : Option E → Delivered E → Delivered E
  after_event none rest = record { events = []; whole = false }
  after_event (some e) rest = record { events = e ∷ rest.events; whole = rest.whole }

  -- What comes after the parts before, where they could be read.
  abbrev pub continue : Delivered E → Delivered E → Delivered E
  continue before after =
      if before.whole
      then record { events = before.events ++ after.events; whole = after.whole }
      else before

module _ {ℓ} {E : Type ℓ} (parse : Text → Option E) where
  abbrev pub after_line : Option Text → Delivered E → Delivered E
  after_line none rest = rest
  after_line (some line) rest = after_event (parse line) rest

  -- The loop over the parts.
  unfoldable pub deliver : List Text → Delivered E
  deliver [] = record { events = []; whole = true }
  deliver (chunk ∷ chunks) = after_line (data_of chunk) (deliver chunks)

  -- The loop over the reads, with the buffer.
  unfoldable pub tail_ssh : List Text → Text → Delivered E
  tail_ssh [] buffer = record { events = []; whole = true }
  tail_ssh (read ∷ reads) buffer =
      let parts = cut (buffer ++ read) in continue (deliver parts.0) (tail_ssh reads parts.1)
