-- ===== src/Kafka/Delivery.antt =====
-- What `Publish` hands to the writer.
use api_observability_platfo.Base.{
  ℕ, ◌≡◌, refl, Option, ap, ◌∙◌, some, List, [], ◌∷◌, ◌++◌, map, append_assoc, append-nil, All,
}
use api_observability_platfo.Domain.{Error, LogEvent}
use api_observability_platfo.Contract.{Context}
use api_observability_platfo.Kafka.{
  Values, Writer, Marshalled, bytes, fails, all_values, first_error, marshal_all, append_value,
  write_values, publish,
}

-- The error of an encoding, if it has one, and its bytes, if it has them.
abbrev pub error_in : Marshalled → List Error
error_in (bytes b) = []
error_in (fails x) = x ∷ []

abbrev pub bytes_in : Marshalled → List (List ℕ)
bytes_in (bytes b) = b ∷ []
bytes_in (fails x) = []

module _ (marshal : LogEvent → Marshalled) where
  -- The errors of the events that cannot be encoded, and the bytes of those that can.
  abbrev pub errors_in : List LogEvent → List Error
  errors_in [] = []
  errors_in (e ∷ es) = error_in (marshal e) ++ errors_in es

  abbrev pub encodings : List LogEvent → List (List ℕ)
  encodings [] = []
  encodings (e ∷ es) = bytes_in (marshal e) ++ encodings es

module _ {W : Type 0} (marshal : LogEvent → Marshalled) (writer : Writer W) where
  marshal_all-ok :
      (encode : LogEvent → List ℕ) (es : List LogEvent) (out : List (List ℕ))
      → All (λ e. marshal e ≡ bytes (encode e)) es
      → marshal_all marshal writer es out ≡ all_values (out ++ map encode es)
  unfolding marshal_all
  marshal_all-ok encode [] out h = rw append-nil
  marshal_all-ok encode (e ∷ es) out h =
      rw (h.0, append_value)
        (marshal_all-ok encode es (out ++ encode e ∷ []) h.1
          ∙ ap all_values (append_assoc out (encode e ∷ []) (map encode es)))

  -- If every event can be encoded, `Publish` makes one call of the writer, with one message for each
  -- event, in order, and returns its answer.
  pub publish_in_order :
      (ctx : Context) (encode : LogEvent → List ℕ) (es : List LogEvent) (w : W)
      → All (λ e. marshal e ≡ bytes (encode e)) es
      → publish marshal writer ctx es w ≡ writer.write_messages ctx (map encode es) w
  unfolding publish
  publish_in_order ctx encode es w h = rw (marshal_all-ok encode es [] h, write_values)

  -- What `Publish` is to return for the errors and the bytes of its events.
  abbrev pub expected_publish : Context → List Error → List (List ℕ) → W → Option Error × W
  expected_publish ctx [] values w = writer.write_messages ctx values w
  expected_publish ctx (x ∷ xs) values w = (some x, w)

  abbrev expected_values : List Error → List (List ℕ) → Values
  expected_values [] values = all_values values
  expected_values (x ∷ xs) values = first_error x

  append_value_lem :
      (q : Marshalled) (es : List LogEvent) (out values : List (List ℕ)) (xs : List Error)
      → ((more : List (List ℕ))
          → marshal_all marshal writer es more ≡ expected_values xs (more ++ values))
      → append_value marshal writer (marshal_all marshal writer es) out q
        ≡ expected_values (error_in q ++ xs) (out ++ (bytes_in q ++ values))
  unfolding append_value
  append_value_lem (bytes b) es out values xs rest =
      rest (out ++ b ∷ []) ∙ ap (expected_values xs) (append_assoc out (b ∷ []) values)
  append_value_lem (fails x) es out values xs rest = refl

  marshal_all_lem :
      (es : List LogEvent) (out : List (List ℕ))
      → marshal_all marshal writer es out
        ≡ expected_values (errors_in marshal es) (out ++ encodings marshal es)
  unfolding marshal_all
  marshal_all_lem [] out = rw append-nil
  marshal_all_lem (e ∷ es) out = append_value_lem (marshal e) es out _ _ (marshal_all_lem es)

  written :
      (ctx : Context) (xs : List Error) (values : List (List ℕ)) (w : W)
      → write_values marshal writer ctx (expected_values xs values) w
        ≡ expected_publish ctx xs values w
  unfolding write_values
  written ctx [] values w = refl
  written ctx (x ∷ xs) values w = refl

  -- `Publish` returns the error of the first event that cannot be encoded, if there is one, and then
  -- hands nothing to the writer, not even the events before it; otherwise it makes one call of the
  -- writer, with the encodings of all events in their order, and returns its answer.
  pub publish_lem :
      (ctx : Context) (es : List LogEvent) (w : W)
      → publish marshal writer ctx es w
        ≡ expected_publish ctx (errors_in marshal es) (encodings marshal es) w
  unfolding publish
  publish_lem ctx es w =
      ap (λ v. write_values marshal writer ctx v w) (marshal_all_lem es []) ∙ written ctx _ _ w
