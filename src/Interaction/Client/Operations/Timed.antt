-- ===== src/Interaction/Client/Operations/Timed.antt =====
-- internal/interaction/client.go: what Client.InvokeTimed sends.
use matter_cli.Prelude.{ℕ, some, List}
use matter_cli.Interaction.Status.{opcode_invoke_request}
use matter_cli.Interaction.Client.{Link, im_message, with_revision}
use matter_cli.Protocol.Message.{Message}
use matter_cli.Protocol.Exchange.{stamp}

-- The invoke request, with the acknowledgement of that reply to the timed request.
abbrev pub invoke_message : Link → List ℕ → Message → Message
invoke_message link invoke reply =
    stamp link.exchange
      (im_message opcode_invoke_request (with_revision invoke) (some reply.header.message_counter))
