-- ===== src/Interaction/Client/Complete.antt =====
-- internal/interaction/client.go: Client.Read gives all that the device reports, or an error.
use matter_cli.Prelude.{List, [], ◌∷◌, Result, ok, err, ◌≡◌, ◌⊎◌}
use matter_cli.Interaction.Reports.{AttributeReport}
use matter_cli.Interaction.Client.{ReceiveError, ClientError}
use matter_cli.Protocol.Message.{Message}

-- What `Receive` gives of those messages where the exchange may end at any time: all of them, or the
-- first ones and then an error or nothing more.
pub data Interrupted
    : List (Result ReceiveError Message) → List (Result ReceiveError Message) → Type 0 where
  ended : {full : List (Result ReceiveError Message)} → Interrupted full []
  failed :
      {full rest : List (Result ReceiveError Message)} (e : ReceiveError)
      → Interrupted full (err e ∷ rest)
  kept :
      {full inbox : List (Result ReceiveError Message)} (r : Result ReceiveError Message)
      → Interrupted full inbox
      → Interrupted (r ∷ full) (r ∷ inbox)

-- Those reports, or an error.
abbrev pub AllOrError : List AttributeReport → Result ClientError (List AttributeReport) → Type 0
AllOrError reports result = (result ≡ ok reports) ⊎ ((e : ClientError) × (result ≡ err e))
