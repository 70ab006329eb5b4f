-- ===== src/Logs/Stream/Messages.antt =====
-- The messages of the server, each in a part of its own: `data: `, a line and a blank line.
use dbtabase_workbench.Common.{
  ◌≡◌, refl, ap, ◌∙◌, true, false, Option, some, List, [], ◌∷◌, ◌++◌, append_assoc, Text, text,
  ◌==◌, All, flat_map,
}
use dbtabase_workbench.Redis.Split.{split}
use dbtabase_workbench.Table.Value.{starts_with}
use dbtabase_workbench.Logs.Stream.{
  line_feed, cut, data_of, Delivered, deliver, after_event, tail_ssh,
}
use dbtabase_workbench.Logs.Stream.Chunks.{tail_ssh-joined}

-- One line: a text with no line feed.
abbrev pub IsLine : Text → Type 0
IsLine s = All (λ c. (c == line_feed) ≡ false) s

cut-line :
    (s rest : Text)
    → IsLine s
    → cut (s ++ (line_feed ∷ line_feed ∷ rest)) ≡ (s ∷ (cut rest).0, (cut rest).1)
unfolding cut
cut-line [] rest h = refl
cut-line (c ∷ []) rest h = rw h.0 refl
cut-line (c ∷ d ∷ s) rest h = rw (h.0, cut-line (d ∷ s) rest h.1)

split-line : (s : Text) → IsLine s → split line_feed s ≡ s ∷ []
unfolding split
split-line [] h = refl
split-line (c ∷ s) h = rw (h.0, split-line s h.1)

IsLine-data : (m : Text) → IsLine m → IsLine (text "data: " ++ m)
IsLine-data m h = (refl, (refl, (refl, (refl, (refl, (refl, h))))))

data_of-message : (m : Text) → IsLine m → data_of (text "data: " ++ m) ≡ some m
unfolding data_of starts_with
data_of-message m h = rw (split-line (text "data: " ++ m) (IsLine-data m h), data_of)

-- The text that the server sends for the messages.
abbrev pub sent : List Text → Text
sent messages = flat_map (λ m. text "data: " ++ m ++ (line_feed ∷ line_feed ∷ [])) messages

module _ {ℓ} {E : Type ℓ} (parse : Text → Option E) where
  -- The events of the messages, up to the first that is not read.
  abbrev pub read_all : List Text → Delivered E
  read_all [] = record { events = []; whole = true }
  read_all (m ∷ ms) = after_event (parse m) (read_all ms)

  cut-sent :
      (m rest : Text)
      → IsLine m
      → cut ((text "data: " ++ m ++ (line_feed ∷ line_feed ∷ [])) ++ rest)
        ≡ ((text "data: " ++ m) ∷ (cut rest).0, (cut rest).1)
  cut-sent m rest h =
      ap cut (append_assoc (text "data: " ++ m) (line_feed ∷ line_feed ∷ []) rest)
      ∙ cut-line (text "data: " ++ m) rest (IsLine-data m h)

  deliver-sent :
      (messages : List Text)
      → All IsLine messages
      → deliver parse (cut (sent messages)).0 ≡ read_all messages
  unfolding deliver cut
  deliver-sent [] h = refl
  deliver-sent (m ∷ ms) h =
      ap (λ parts. deliver parse parts.0) (cut-sent m (sent ms) h.0)
      ∙ rw (data_of-message m h.0, deliver-sent ms h.1)

  -- If every message is one line, then wherever the reads cut the text that the server sends, the
  -- events are those of the messages, each of them once and in order, up to the first message that
  -- `JSON.parse` refuses.
  pub tail_ssh-messages :
      (messages reads : List Text)
      → All IsLine messages
      → flat_map (λ r. r) reads ≡ sent messages
      → tail_ssh parse reads [] ≡ read_all messages
  tail_ssh-messages messages reads h same =
      tail_ssh-joined parse reads ∙ ap (λ s. deliver parse (cut s).0) same ∙ deliver-sent messages h
