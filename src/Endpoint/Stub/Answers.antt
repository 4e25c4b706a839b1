-- ===== src/Endpoint/Stub/Answers.antt =====
-- Which requests are answered.
use bsa_pcie_exerciser.Prelude.{
  ◌≡◌, ◌∙◌, refl, sym, Bool, true, false, ◌&&◌, not, if◌then◌else◌, List, [], ◌∷◌, ◌++◌, arith, run,
}
use mathlib.Core.List.{append-nil, append_assoc}
use bsa_pcie_exerciser.Endpoint.{Beat, Request, Completion}
use bsa_pcie_exerciser.Endpoint.Stub.{Stub, Inputs, reset, req_ready, cpl_valid, step, cpl}

-- The requests that begin with a beat that is taken.
unfoldable pub begun : Stub → List Inputs → List Request
begun s [] = []
begun s (i ∷ is) =
    (if i.valid && req_ready s i && i.req.first then i.req.body ∷ [] else []) ++ begun (step s i) is

-- The completions that the arbiter takes.
unfoldable pub answers : Stub → List Inputs → List (Beat Completion)
answers s [] = []
answers s (i ∷ is) =
    (if cpl_valid s && i.cpl_ready then cpl s ∷ [] else []) ++ answers (step s i) is

-- The answer to a request: a write has none, a read that of an unsupported request.
unfoldable pub answer_to : Request → List (Beat Completion)
answer_to r =
    if r.we
    then []
    else record {
      first = true;
      last = true;
      body = record {
        dat = 0;
        len = 0;
        end = true;
        err = true;
        tag = r.tag;
        status = 0;
        byte_count = 0;
        adr = 0;
        req_id = r.req_id;
        cmp_id = 0;
        channel = 0;
        user_id = 0;
      };
    }
      ∷ []

unfoldable pub answers_to : List Request → List (Beat Completion)
unfolding answer_to
answers_to [] = []
answers_to (r ∷ rs) = answer_to r ++ answers_to rs

unfoldable pub pending : Stub → List (Beat Completion)
unfolding cpl_valid cpl
pending s = if cpl_valid s then cpl s ∷ [] else []

-- No write begins in a cycle in which a read waits for its completion and it is not taken.
unfoldable pub patient : Stub → List Inputs → Bool
patient s [] = true
patient s (i ∷ is) =
    not (s.req_valid && i.valid && i.req.body.we && i.req.first && not i.cpl_ready)
    && patient (step s i) is

cycle :
    (s : Stub) (i : Inputs) (rest : List (Beat Completion)) (later : List Request)
    → (s.req_valid && i.valid && i.req.body.we && i.req.first && not i.cpl_ready) ≡ false
    → rest ≡ pending (step s i) ++ answers_to later
    → (if cpl_valid s && i.cpl_ready then cpl s ∷ [] else []) ++ rest
      ≡ pending s
        ++ answers_to
            ((if i.valid && req_ready s i && i.req.first then i.req.body ∷ [] else []) ++ later)
unfolding step pending answers_to req_ready
cycle s i rest later h e = ground arith

answers-pending :
    (s : Stub) (is : List Inputs)
    → patient s is ≡ true
    → answers s is ++ pending (run step s is) ≡ pending s ++ answers_to (begun s is)
unfolding answers run begun patient
answers-pending s [] h = unfold answers_to in sym (append-nil _)
answers-pending s (i ∷ is) h =
    let both : ((s.req_valid && i.valid && i.req.body.we && i.req.first && not i.cpl_ready) ≡ false)
        × (patient (step s i) is ≡ true) =
      ground arith in
    append_assoc (if cpl_valid s && i.cpl_ready then cpl s ∷ [] else []) (answers (step s i) is)
      (pending (run step (step s i) is))
    ∙ cycle s i _ (begun (step s i) is) both.0 (answers-pending (step s i) is both.1)

-- From reset, when no write begins in a cycle in which a read waits for its completion and the
-- completion is not taken: the completions that are taken, and the one that waits at the end, are
-- one for each read that was taken, in order and with its tag and requester, and none for a write.
pub answers-begun :
    (is : List Inputs)
    → patient reset is ≡ true
    → answers reset is ++ pending (run step reset is) ≡ answers_to (begun reset is)
unfolding pending
answers-begun is h = answers-pending reset is h

-- A run on which no read begins.
abbrev pub NoRead : List Inputs → Type 0
NoRead [] = Unit {0}
NoRead (i ∷ is) = (i.req.body.we ≡ true) × NoRead is

still_idle :
    (s : Stub) (i : Inputs)
    → s.req_valid ≡ false
    → i.req.body.we ≡ true
    → (step s i).req_valid ≡ false
unfolding step
still_idle s i h w = ground arith

answers_none :
    (s : Stub) (i : Inputs) (is : List Inputs)
    → (cpl_valid s && i.cpl_ready) ≡ false
    → answers s (i ∷ is) ≡ answers (step s i) is
unfolding answers
answers_none s i is h = rw h refl

idle-silent : (s : Stub) (is : List Inputs) → s.req_valid ≡ false → NoRead is → answers s is ≡ []
unfolding answers cpl_valid
idle-silent s [] h n = refl
idle-silent s (i ∷ is) h (w, n) =
    answers_none s i is (ground (arith, h)) ∙ idle-silent (step s i) is (still_idle s i h w) n

-- A write that begins while a read waits for its completion, in a cycle in which the completion is
-- not taken, is taken itself, and the completion is lost: it is not sent until another read begins.
pub write-loses_read :
    (s : Stub) (i : Inputs) (is : List Inputs)
    → s.req_valid ≡ true
    → i.valid ≡ true
    → i.req.first ≡ true
    → i.req.body.we ≡ true
    → i.cpl_ready ≡ false
    → NoRead is
    → (req_ready s i ≡ true) × (answers s (i ∷ is) ≡ [])
unfolding req_ready
write-loses_read s i is pend v f w c n =
    let lost : (step s i).req_valid ≡ false = unfold step in ground arith in
    (
      ground arith,
      answers_none s i is (unfold cpl_valid in ground arith) ∙ idle-silent (step s i) is lost n,
    )
