-- ===== src/Publisher/Subjects.antt =====
-- Which subjects the stream takes in.
use eth_tracker.Prelude.{
  ℕ, ◌≡◌, Bool, true, false, not, ◌&&◌, ◌||◌, String, List, [], ◌∷◌, ◌==◌, bytes_eq, contains,
  nat_eq,
}
use eth_tracker.Prelude.Codes.{codes}
use eth_tracker.Prelude.Split.{split_on}
use eth_tracker.Event.{Event}
use eth_tracker.Publisher.{subject_of}
use eth_tracker.Publisher.Connect.{stream_subject_pattern}

-- What NATS documents of subjects: they are tokens with dots between them; a token is not empty and has
-- no white space; a star in a pattern stands for any one token.
abbrev tokens : String → List (List ℕ)
tokens subject = split_on 46 (codes subject)

abbrev is_token : List ℕ → Bool
is_token [] = false
is_token (c ∷ cs) = not (contains (c ∷ cs) 32)

abbrev match : List (List ℕ) → List (List ℕ) → Bool
match [] [] = true
match [] (token ∷ ts) = false
match (p ∷ ps) [] = false
match (p ∷ ps) (token ∷ ts) = (is_token token && (p == (42 ∷ []) || p == token)) && match ps ts

abbrev pub matches : String → String → Bool
matches pattern subject = match (tokens pattern) (tokens subject)

-- The stream that `NewJetStreamPub` creates stores the event.
abbrev pub IsTaken : Event → Type 0
IsTaken e = matches stream_subject_pattern (subject_of e) ≡ true
