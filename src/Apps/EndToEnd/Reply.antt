-- ===== src/Apps/EndToEnd/Reply.antt =====
-- The answer to an order, from the service of src/asm/service.cpp to the line that src/apps/asm_initiator.cpp prints.
use iso26430_6_asm_prototype.Base.{
  ℕ, ◌+◌, ◌≤◌, ◌≡◌, refl, inl, inr, some, [], ◌∷◌, ◌++◌, length, arith, ok, bind_ok, Text, codes,
  sym, ◌∙◌,
}
use iso26430_6_asm_prototype.Common.{
  ByteBuffer, ServiceResult, command_to_string, response_to_string,
}
use iso26430_6_asm_prototype.Apps.Initiator.Answers.{told, IsAnswerable, answer_text-told}
use iso26430_6_asm_prototype.Apps.Initiator.Orders.{Order, asked, IsOrder}
use iso26430_6_asm_prototype.Apps.Initiator.Printing.{payload_text, result_line}
use iso26430_6_asm_prototype.Apps.Initiator.Replies.{
  carried_out, reply_code, reply_size, answer_shape-reply, asked_payload,
}
use iso26430_6_asm_prototype.Codec.Responses.{IsSendable}
use iso26430_6_asm_prototype.EventLog.{EventLogStore}
use iso26430_6_asm_prototype.LeKey.Store.{Keys}
use iso26430_6_asm_prototype.QuerySpb.{StaticQuerySpbStatusProvider}
use iso26430_6_asm_prototype.Service.{handle_request}
use iso26430_6_asm_prototype.Service.Answers.{handle_request_answer}
use iso26430_6_asm_prototype.Service.KeyCommands.{in_memory_service}
use iso26430_6_asm_prototype.Streams.{decimal}
use iso26430_6_asm_prototype.Transport.Reading.{buffer_size}

module _ (log : EventLogStore) (status : StaticQuerySpbStatusProvider) where
  -- The service answers the order, and the answer can be sent.
  pub record OrderReply (now : ℕ) (raw : ByteBuffer) (o : Order) (s : Keys) : Type 0 where
    pub result : ServiceResult
    pub handled : (handle_request (in_memory_service log status) now (asked o) raw s).0 ≡ ok result
    pub effect :
        (handle_request (in_memory_service log status) now (asked o) raw s).1 ≡ carried_out o s
    pub text :
        payload_text result.response.command result.response.payload ≡ ok (told log status now o s)
    pub code : result.response.response_code ≡ reply_code log status now o s
    pub size : length result.response.payload ≡ reply_size log status now o s
    pub command : result.response.command ≡ (asked o).command
    pub id : result.response.request_id ≡ some 1

  pub order_reply :
      (now : ℕ) (raw : ByteBuffer) (o : Order) (s : Keys)
      → IsOrder o
      → IsAnswerable log status now o s
      → OrderReply now raw o s
  order_reply now raw o s h fits =
      let (_, one, sent) = asked_payload o h in
      let (shape, effect) = answer_shape-reply log status now raw o s h fits in
      let (result, handled, shaped) = bind_ok _ _ _ shape in
      let text = answer_text-told log status now raw o s h fits in
      elim (handle_request_answer (in_memory_service log status) now (asked o) raw s result
        handled) [
          | inr (inl zero, _, _) ↦ absurd (omega (arith, zero, one))
          | inr (inr bad, _, _) ↦ absurd (sent bad)
          | inl (fine, (command, id)) ↦ record {
            result = result;
            handled = handled;
            effect = effect;
            text = rw handled at text;
            code = ground (arith, shaped);
            size = ground (arith, shaped);
            command = command;
            id = rw one at id;
          }
        ]

  -- The line that the user reads: who answered, the command, how it went, the id, and what was asked for.
  abbrev pub reply_line : Text → ℕ → Order → Keys → Text
  reply_line thumbprint now o s =
      codes "peer="
      ++ (thumbprint
          ++ (codes " command="
              ++ (codes (command_to_string (asked o).command)
                  ++ (codes " response="
                      ++ (codes (response_to_string (reply_code log status now o s))
                          ++ ((codes " request_id=" ++ decimal 1)
                              ++ (told log status now o s ++ (b'\n' ∷ []))))))))

  pub result_line-reply_line :
      (now : ℕ) (raw : ByteBuffer) (o : Order) (s : Keys) (thumbprint : Text)
      (reply : OrderReply now raw o s)
      → result_line (record { response = reply.result.response; peer_thumbprint = thumbprint })
        ≡ ok (reply_line thumbprint now o s)
  unfolding result_line
  result_line-reply_line now raw o s thumbprint reply =
      rw (reply.text, reply.command, reply.code, reply.id) refl

  pub reply-IsSendable :
      (now : ℕ) (raw : ByteBuffer) (o : Order) (s : Keys) (reply : OrderReply now raw o s)
      → IsOrder o
      → 25 + reply_size log status now o s ≤ buffer_size
      → IsSendable reply.result.response
  reply-IsSendable now raw o s reply h short =
      let (_, one, sent) = asked_payload o h in
      record {
        right_id = inr ((λ bad. sent (sym reply.command ∙ bad)), (1, reply.id, omega arith));
        size_fits = rw reply.id (omega (arith, reply.size));
      }
