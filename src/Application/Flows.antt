-- ===== src/Application/Flows.antt =====
-- The requests that an application makes of its flows (omnetpp/client/application/Application.cc).
use pfssim.Base.{
  ℕ, ◌+◌, ◌*◌, ◌/◌, ◌%◌, ◌≡◌, refl, ap, sym, ◌∙◌, inl, inr, Bool, true, false, List, [], ◌∷◌, ◌++◌,
  map, ◌==◌, if◌then◌else◌, update, All, leb, Option, none, some, Bool-cases, ==_iff, Arith, arith,
}
use mathlib.Core.List.{append_assoc}
use pfssim.Trace.{AppRequest, lowoffset_range}
use pfssim.Application.{
  trc_maxsize, ends, and_then, Line, Application, Effect, send, schedule, write, end_simulation,
  Outcome, also, create_request, send_or_schedule, send_time, end_of_file, retire, read_lines,
  read_one_trace,
}

-- What a line asks for: a file, an offset, a size, reading or writing, and an application.
abbrev pub Content : Type 0
Content = ℕ × ℕ × ℕ × Bool × ℕ

abbrev pub content : AppRequest → Content
content r = (r.file_id, r.high_offset * lowoffset_range + r.low_offset, r.total_size, r.read, r.app)

module _ (F : Arith) where
  abbrev pub line_content : Line F → Content
  line_content l = (l.file_id, l.offset, l.size, l.read, l.app)

  abbrev if_of : ℕ → AppRequest → List Content → List Content
  if_of i r cs = if r.trace_file_id == i then content r ∷ cs else cs

  -- What is asked for on behalf of the flow `i`.
  unfoldable pub asked : ℕ → List (Effect F) → List Content
  asked i [] = []
  asked i (send t r ∷ es) = if_of i r (asked i es)
  asked i (schedule t r ∷ es) = if_of i r (asked i es)
  asked i (write r ∷ es) = asked i es
  asked i (end_simulation ∷ es) = asked i es

  -- The requests have the IDs from `n` to before `m`, in order.
  abbrev pub Numbered : ℕ → List (Effect F) → ℕ → Type 0
  Numbered n [] m = n ≡ m
  Numbered n (send t r ∷ es) m = (r.id ≡ n) × Numbered (n + 1) es m
  Numbered n (schedule t r ∷ es) m = (r.id ≡ n) × Numbered (n + 1) es m
  Numbered n (write r ∷ es) m = Numbered n es m
  Numbered n (end_simulation ∷ es) m = Numbered n es m

  -- The lines that are left are small enough.
  abbrev pub IsSmall : Application F → Type 0
  IsSmall a = (j : ℕ) → All (λ (l : Line F). leb trc_maxsize l.size ≡ false) (a.flows j)

  -- What is asked for on behalf of the flow `i` and what is left of it make up what it held, in order.
  abbrev pub Reads : ℕ → Application F → Option (Outcome F) → Type 0
  Reads i a none = ⊥
  Reads i a (some (es, a')) =
      (asked i es ++ map line_content (a'.flows i) ≡ map line_content (a.flows i))
      × Numbered a.trace_id es a'.trace_id
      × IsSmall a'

  asked-append : (i : ℕ) (es fs : List (Effect F)) → asked i (es ++ fs) ≡ asked i es ++ asked i fs
  unfolding asked
  asked-append i [] fs = refl
  asked-append i (send t r ∷ es) fs = ground (arith, asked-append i es fs)
  asked-append i (schedule t r ∷ es) fs = ground (arith, asked-append i es fs)
  asked-append i (write r ∷ es) fs = asked-append i es fs
  asked-append i (end_simulation ∷ es) fs = asked-append i es fs

  Numbered-append :
      (n k m : ℕ) (es fs : List (Effect F))
      → Numbered n es k
      → Numbered k fs m
      → Numbered n (es ++ fs) m
  Numbered-append n k m [] fs h g = rw h g
  Numbered-append n k m (send t r ∷ es) fs h g = (h.0, Numbered-append (n + 1) k m es fs h.1 g)
  Numbered-append n k m (schedule t r ∷ es) fs h g = (h.0, Numbered-append (n + 1) k m es fs h.1 g)
  Numbered-append n k m (write r ∷ es) fs h g = Numbered-append n k m es fs h g
  Numbered-append n k m (end_simulation ∷ es) fs h g = Numbered-append n k m es fs h g

  pub also-Reads :
      (i : ℕ) (a a' : Application F) (es : List (Effect F)) (o : Option (Outcome F))
      → Reads i a (some (es, a'))
      → Reads i a' o
      → Reads i a (also F es o)
  also-Reads i a a' es none h g = g
  also-Reads i a a' es (some (fs, a'')) (f, n, s) (f', n', s') = (
    rw (asked-append i es fs) (
        append_assoc (asked i es) (asked i fs) (map line_content (a''.flows i))
        ∙ ap (λ (x : List Content). asked i es ++ x) f'
        ∙ f),
    Numbered-append a.trace_id a'.trace_id a''.trace_id es fs n n',
    s',
  )

  pub and_then-Reads :
      (i : ℕ) (a : Application F) (o : Option (Outcome F)) (k : Application F → Option (Outcome F))
      → Reads i a o
      → ((a' : Application F) → IsSmall a' → Reads i a' (k a'))
      → Reads i a (and_then F o k)
  and_then-Reads i a none k h g = h
  and_then-Reads i a (some (es, a')) k (f, n, s) g = elim (Bool-cases (ends F es)) [
    | inl e ↦ rw e (f, n, s)
    | inr e ↦ rw e (also-Reads i a a' es (k a') (f, n, s) (g a' s))
  ]

  whole : (o : ℕ) → o / lowoffset_range * lowoffset_range + o % lowoffset_range ≡ o
  whole o = omega arith

  retire_keeps :
      (b : Bool) (a : Application F)
      → ((retire F b a).flows ≡ a.flows) × ((retire F b a).trace_id ≡ a.trace_id)
  unfolding retire
  retire_keeps true a = (refl, refl)
  retire_keeps false a = (refl, refl)

  end_of_file-Reads : (i : ℕ) (a : Application F) → IsSmall a → Reads i a (some (end_of_file F a))
  unfolding end_of_file asked
  end_of_file-Reads i a h =
      let (f, t) = retire_keeps a.active a in
      elim (Bool-cases ((retire F a.active a).active_applications == 0)) [
        | inl e ↦ rw (e, f, t) (refl, refl, h)
        | inr e ↦ rw (e, f, t) (refl, refl, h)
      ]

  asked_once :
      (i : ℕ) (now time : F.Double) (r : AppRequest)
      → asked i (send_or_schedule F now time r ∷ []) ≡ if_of i r []
  unfolding asked send_or_schedule
  asked_once i now time r = ground arith

  send_or_schedule-Numbered :
      (n : ℕ) (now time : F.Double) (r : AppRequest)
      → r.id ≡ n
      → Numbered n (send_or_schedule F now time r ∷ []) (n + 1)
  unfolding send_or_schedule
  send_or_schedule-Numbered n now time r h = elim (Bool-cases (F.lt now time)) [
    | inl e ↦ rw e (h, refl)
    | inr e ↦ rw e (h, refl)
  ]

  ==_sym : (n m : ℕ) → (n == m) ≡ (m == n)
  ==_sym n m = ground arith

  -- One request, and what is left of the flow it is of.
  taken :
      (i index : ℕ) (l : Line F) (ls : List (Line F)) (a : Application F)
      → a.flows index ≡ l ∷ ls
      → if_of i (create_request F a.trace_id index l) []
          ++ map line_content (update a.flows index ls i)
        ≡ map line_content (a.flows i)
  unfolding create_request
  taken i index l ls a h = elim (Bool-cases (index == i)) [
    | inl e ↦
        let q = sym ((==_iff index i).0 e) in
        rw (e, (==_iff i index).1 q, whole l.offset, ap a.flows q ∙ h) refl
    | inr e ↦ rw (e, ==_sym i index ∙ e) refl
  ]

  flow_lines :
      (index : ℕ) (ls : List (Line F)) (a : Application F)
      → IsSmall a
      → a.flows index ≡ ls
      → All (λ (l : Line F). leb trc_maxsize l.size ≡ false) ls
  flow_lines index ls a s h = rw (← h) (s index)

  rest-IsSmall :
      (index : ℕ) (l : Line F) (ls : List (Line F)) (a : Application F)
      → IsSmall a
      → a.flows index ≡ l ∷ ls
      → IsSmall (record a { flows = update a.flows index ls; trace_id = a.trace_id + 1 })
  rest-IsSmall index l ls a s h j = elim (Bool-cases (j == index)) [
    | inl e ↦ rw e (flow_lines index (l ∷ ls) a s h).1
    | inr e ↦ rw e (s j)
  ]

  read_lines-Reads :
      (i index : ℕ) (now : F.Double) (ls : List (Line F)) (a : Application F)
      → IsSmall a
      → a.flows index ≡ ls
      → Reads i a (read_lines F now index ls a)
  unfolding read_lines
  read_lines-Reads i index now [] a s h = end_of_file-Reads i a s
  read_lines-Reads i index now (l ∷ ls) a s h =
      let r = create_request F a.trace_id index l in
      rw ((flow_lines index (l ∷ ls) a s h).0) (
        rw (asked_once i now (send_time F now a l) r) (taken i index l ls a h),
        send_or_schedule-Numbered a.trace_id now (send_time F now a l) r
            (unfold create_request in refl),
        rest-IsSmall index l ls a s h,
      )

  pub read_one_trace-Reads :
      (i index : ℕ) (now : F.Double) (a : Application F)
      → IsSmall a
      → Reads i a (read_one_trace F now index a)
  unfolding read_one_trace
  read_one_trace-Reads i index now a s = read_lines-Reads i index now (a.flows index) a s refl
