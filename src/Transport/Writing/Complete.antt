-- ===== src/Transport/Writing/Complete.antt =====
-- `write_all` ends, and either everything is sent or a call has failed.
use iso26430_6_asm_prototype.Base.{
  ℕ, zero, suc, ◌+◌, ◌≤◌, ◌<◌, ◌≡◌, ◌≢◌, refl, ◌∙◌, sym, ap, ◌⊎◌, inl, inr, [], ◌∷◌, ◌++◌,
  append-nil, append_assoc, arith, length, take, drop, length-drop, take-append-drop, ok, err, ◌==◌,
  Bool-cases, Result,
}
use iso26430_6_asm_prototype.Common.{ByteBuffer}
use iso26430_6_asm_prototype.Transport.Errors.{failure}
use iso26430_6_asm_prototype.Transport.Writing.{Ssl, Wire, write_loop, write_all}

-- The bytes are all sent, behind what was; or some call returned no positive number, its message was
-- thrown, and a front part of the bytes is sent.
abbrev pub Written : Ssl → ByteBuffer → Wire → Result (Unit {0}) × Wire → Type 0
Written ssl bytes before (result, after) =
    ((result ≡ ok tt) × (after.sent ≡ before.sent ++ bytes))
    ⊎ ((call : ℕ) × (front : ByteBuffer) × (back : ByteBuffer) × (bytes ≡ front ++ back)
        × (0 < length back)
        × (ssl.write call (length back) ≡ 0)
        × (result ≡ err (failure "SSL_write" (ssl.errors call)))
        × (after.sent ≡ before.sent ++ front))

module _ (ssl : Ssl) where
  -- Written from the middle, the front of the bytes already taken.
  extend :
      (rc : ℕ) (bytes : ByteBuffer) (before after : Wire) (outcome : Result (Unit {0}) × Wire)
      → after.sent ≡ before.sent ++ take rc bytes
      → Written ssl (drop rc bytes) after outcome
      → Written ssl bytes before outcome
  extend rc bytes before after (result, end) e (inl (fine, sent)) = inl (
    fine,
    rw
        (
          sent,
          e,
          append_assoc before.sent (take rc bytes) (drop rc bytes),
          take-append-drop rc bytes,
        )
        refl,
  )
  extend rc bytes before after (result, end) e
        (inr (call, front, back, split, some_left, failed, thrown, sent)) =
      inr (
        call,
        take rc bytes ++ front,
        back,
        sym (take-append-drop rc bytes)
            ∙ ap (◌++◌ (take rc bytes)) split
            ∙ sym (append_assoc (take rc bytes) front back),
        some_left,
        failed,
        thrown,
        rw (sent, e) (append_assoc before.sent (take rc bytes) front),
      )

  write_loop-Written :
      (rounds : ℕ) (bytes : ByteBuffer) (wire : Wire)
      → length bytes ≤ rounds
      → Written ssl bytes wire (write_loop ssl rounds bytes wire)
  unfolding write_loop
  write_loop-Written rounds [] wire h = inl (refl, sym (append-nil wire.sent))
  write_loop-Written zero (b ∷ bytes) wire h = absurd (omega arith)
  write_loop-Written (suc rounds) (b ∷ bytes) wire h =
      let rc = ssl.write wire.calls (length (b ∷ bytes)) in
      let after : Wire = record {
        calls = wire.calls + 1;
        sent = wire.sent ++ take rc (b ∷ bytes);
      } in
      elim (Bool-cases (rc == 0)) [
        | inl failed ↦ rw failed (
            inr (
              wire.calls,
              [],
              b ∷ bytes,
              refl,
              omega arith,
              ground arith,
              refl,
              sym (append-nil wire.sent),
            ))
        | inr taken ↦ rw taken (
            extend rc (b ∷ bytes) wire after (write_loop ssl rounds (drop rc (b ∷ bytes)) after)
              refl
              (write_loop-Written rounds (drop rc (b ∷ bytes)) after
                (ground (arith, length-drop rc (b ∷ bytes)))))
      ]

  -- `write_all` ends in one of two ways. It returns, and all the bytes are sent in order behind what was
  -- sent before; or it throws the message of a call of `SSL_write` that was not positive: then what is
  -- sent is a front part of the bytes, and that call was for all the rest, which is not empty.
  pub write_all-Written :
      (bytes : ByteBuffer) (wire : Wire) → Written ssl bytes wire (write_all ssl bytes wire)
  unfolding write_all
  write_all-Written bytes wire = write_loop-Written (length bytes) bytes wire (omega arith)

  -- Where every call that has bytes to write takes one at least, all the bytes are sent.
  pub write_all_sends :
      ((call size : ℕ) → 0 < size → ssl.write call size ≢ 0)
      → (bytes : ByteBuffer) (wire : Wire)
      → (after : Wire) × (write_all ssl bytes wire ≡ (ok tt, after))
        × (after.sent ≡ wire.sent ++ bytes)
  write_all_sends works bytes wire = elim (write_all-Written bytes wire) [
    | inl (fine, sent) ↦
        ((write_all ssl bytes wire).1, ap (λ r. (r, (write_all ssl bytes wire).1)) fine, sent)
    | inr (call, front, back, _, some_left, failed, _, _) ↦
        absurd (works call (length back) some_left failed)
  ]
