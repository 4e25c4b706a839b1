-- ===== src/Ats/Invalidation/Message.antt =====
-- The completion message that answers an invalidation request.
use bsa_pcie_exerciser.Prelude.{
  ℕ, ◌^◌, ◌<◌, ◌≡◌, ◌∙◌, ap, true, false, List, [], ◌∷◌, ◌++◌, arith, run, run-append, run-cons,
  refl, slice,
}
use bsa_pcie_exerciser.Ats.Invalidation.{
  Handler, Inputs, step, idle, send_cpl, msg_dw0, msg_dw1, msg_dw2, msg_dw3, msg_out,
}

-- Cycles on which the output does not take a beat.
abbrev pub Blocked : List Inputs → Type 0
Blocked [] = Unit {0}
Blocked (i ∷ is) = (i.msg_ready ≡ false) × Blocked is

-- The fields of the four words of a message, as a receiver of the format reads them.
pub record Reads (id : ℕ) (s : Handler) (w0 w1 w2 w3 : ℕ) : Type 0 where
  pub format : slice w0 29 3 ≡ 1
  pub kind : slice w0 24 5 ≡ 18
  pub rest : slice w0 0 24 ≡ 0
  pub requester : slice w1 16 16 ≡ id
  pub tag : slice w1 8 8 ≡ s.inv_tag
  pub code : slice w1 0 8 ≡ 2
  pub target : slice w2 16 16 ≡ s.inv_req_id
  pub itag : slice w2 3 5 ≡ s.inv_itag
  pub status : slice w2 0 3 ≡ 0
  pub reserved : w3 ≡ 0

words_read :
    (id : ℕ) (s : Handler)
    → id < 2 ^ 16
    → s.inv_tag < 2 ^ 8
    → s.inv_req_id < 2 ^ 16
    → s.inv_itag < 2 ^ 5
    → Reads id s msg_dw0 (msg_dw1 id s) (msg_dw2 s) msg_dw3
unfolding msg_dw0 msg_dw1 msg_dw2 msg_dw3
words_read id s a b c d = omega arith

step_blocked : (s : Handler) (i : Inputs) → s.state ≡ send_cpl → i.msg_ready ≡ false → step s i ≡ s
unfolding step
step_blocked s i h r = ground arith

run-Blocked : (s : Handler) (is : List Inputs) → s.state ≡ send_cpl → Blocked is → run step s is ≡ s
unfolding run
run-Blocked s [] h b = refl
run-Blocked s (i ∷ is) h (r, b) =
    ap (λ t. run step t is) (step_blocked s i h r) ∙ run-Blocked s is h b

step_first :
    (s : Handler) (i : Inputs)
    → s.state ≡ send_cpl
    → s.msg_beat ≡ false
    → i.msg_ready ≡ true
    → step s i ≡ record s { msg_beat = true }
unfolding step
step_first s i h b r = ground arith

step_second :
    (s : Handler) (i : Inputs)
    → s.state ≡ send_cpl
    → i.msg_ready ≡ true
    → step (record s { msg_beat = true }) i ≡ record s { msg_beat = false; state = idle }
unfolding step
step_second s i h r = ground arith

first_out :
    (id : ℕ) (s : Handler)
    → s.msg_beat ≡ false
    → msg_out id s ≡ (msg_dw0, msg_dw1 id s, true, false)
unfolding msg_out
first_out id s b = ground arith

second_out :
    (id : ℕ) (s : Handler)
    → msg_out id (record s { msg_beat = true }) ≡ (msg_dw2 s, msg_dw3, false, true)
unfolding msg_out msg_dw2
second_out id s = refl

-- A handler that begins its answer presents one beat until the output takes it, then a second
-- one, and is idle with its other registers unchanged; `first` marks the one beat and `last` the
-- other, and the words decode to a message routed by ID, with this device as requester, the
-- request's tag, message code 2, the sender of the request as target, its ITag, and status 0.
pub send-completes :
    (id : ℕ) (s : Handler) (b₁ : List Inputs) (r₁ : Inputs) (b₂ : List Inputs) (r₂ : Inputs)
    → s.state ≡ send_cpl
    → s.msg_beat ≡ false
    → Blocked b₁
    → r₁.msg_ready ≡ true
    → Blocked b₂
    → r₂.msg_ready ≡ true
    → id < 2 ^ 16
    → s.inv_tag < 2 ^ 8
    → s.inv_req_id < 2 ^ 16
    → s.inv_itag < 2 ^ 5
    → let (w0, w1, f1, l1) = msg_out id (run step s b₁) in
      let (w2, w3, f2, l2) = msg_out id (run step s (b₁ ++ (r₁ ∷ b₂))) in
      Reads id s w0 w1 w2 w3
      × (f1 ≡ true)
      × (l1 ≡ false)
      × (f2 ≡ false)
      × (l2 ≡ true)
      × (run step s (b₁ ++ (r₁ ∷ (b₂ ++ (r₂ ∷ [])))) ≡ record s { msg_beat = false; state = idle })
send-completes id s b₁ r₁ b₂ r₂ h b k₁ t₁ k₂ t₂ p q r u =
    let s' : Handler = record s { msg_beat = true } in
    let e₁ = run-Blocked s b₁ h k₁ in
    let e₂ : run step s (b₁ ++ (r₁ ∷ b₂)) ≡ s' =
      rw (run-append step s b₁ (r₁ ∷ b₂), e₁, run-cons step s r₁, step_first s r₁ h b t₁)
        (run-Blocked s' b₂ h k₂) in
    let e₃ : run step s (b₁ ++ (r₁ ∷ (b₂ ++ (r₂ ∷ []))))
        ≡ record s { msg_beat = false; state = idle } =
      rw
        (
          run-append step s b₁ (r₁ ∷ (b₂ ++ (r₂ ∷ []))),
          e₁,
          run-cons step s r₁,
          step_first s r₁ h b t₁,
          run-append step s' b₂ (r₂ ∷ []),
          run-Blocked s' b₂ h k₂,
          run-cons step s' r₂ [],
        )
        (unfold run in step_second s r₂ h t₂) in
    rw (e₁, e₂, first_out id s b, second_out id s)
      (words_read id s p q r u, refl, refl, refl, refl, e₃)
