-- ===== src/Web/Intents.antt =====
-- The idempotency keys of the money forms, web/src/pages/AccountDetail.tsx (SendMoney) and
-- web/src/pages/Admin.tsx (Fund): one key for each intent. `Fields` is what the user fills in, and
-- `body` the request that it makes, if it makes one.
use pulse_ledger.Base.{
  ℕ, ◌≡◌, ◌≢◌, refl, sym, ◌∙◌, ◌⊎◌, inl, inr, Bool, true, false, Option, none, some, List, [], ◌∷◌,
  arith, if◌then◌else◌, Bool-cases, All,
}
use pulse_ledger.Web.Errors.{ApiError, is_final_answer}

module _ {Fields Body : Type 0} (body : Fields → Option Body) (cleared : Fields → Fields) where
  -- `sends` are the requests sent so far, latest first; what is shown of them is left out.
  pub record Form : Type 0 where
    pub fields : Fields
    pub intent_key : ℕ
    pub busy : Bool
    pub sends : List (ℕ × Body)

  -- `caught instanceof ApiError && caught.isFinalAnswer`; `none` is any other error.
  abbrev pub is_decided : Option ApiError → Bool
  is_decided none = false
  is_decided (some e) = is_final_answer e

  -- What happens to the form. Each new key comes from `crypto.randomUUID()`; `adjusted` is a change
  -- of the fields that is no edit of the user's, such as the choice of the first account when the
  -- list of accounts arrives.
  pub data Event : Type 0 where
    edited : Fields → ℕ → Event
    adjusted : Fields → Event
    submitted : Event
    succeeded : ℕ → Event
    failed : Option ApiError → ℕ → Event

  abbrev pub sending : Form → Option Body → Form
  sending f none = f
  sending f (some b) = record f { busy = true; sends = (f.intent_key, b) ∷ f.sends }

  -- `edit`, the effects, `send` up to its `await`, and what follows it.
  unfoldable pub step : Event → Form → Form
  step (edited fields key) f = record f { fields = fields; intent_key = key }
  step (adjusted fields) f = record f { fields = fields }
  step submitted f = sending f (body f.fields)
  step (succeeded key) f = record f { fields = cleared f.fields; intent_key = key; busy = false }
  step (failed caught key) f = record f {
    intent_key = if is_decided caught then key else f.intent_key;
    busy = false;
  }

  abbrev pub run : List Event → Form → Form
  run [] f = f
  run (e ∷ es) f = run es (step e f)

  abbrev pub IsNew : ℕ → List (ℕ × Body) → Type 0
  IsNew key sends = All (λ s. s.0 ≢ key) sends

  -- A random key has not been used; an adjustment keeps the request, or makes none, or comes before
  -- anything was sent under the form's key.
  abbrev pub IsAllowed : Event → Form → Type 0
  IsAllowed (edited fields key) f = IsNew key f.sends
  IsAllowed (adjusted fields) f =
      (body fields ≡ body f.fields) ⊎ ((body fields ≡ none) ⊎ IsNew f.intent_key f.sends)
  IsAllowed submitted f = Unit
  IsAllowed (succeeded key) f = IsNew key f.sends
  IsAllowed (failed e key) f = IsNew key f.sends

  abbrev pub AllAllowed : List Event → Form → Type 0
  AllAllowed [] f = Unit
  AllAllowed (e ∷ es) f = IsAllowed e f × AllAllowed es (step e f)

  -- Two requests under one key are the same request.
  abbrev pub AgreesWith : ℕ → Body → List (ℕ × Body) → Type 0
  AgreesWith key b sends = All (λ s. s.0 ≡ key → s.1 ≡ b) sends

  abbrev pub IsOnePerKey : List (ℕ × Body) → Type 0
  IsOnePerKey [] = Unit
  IsOnePerKey ((key, b) ∷ sends) = AgreesWith key b sends × IsOnePerKey sends

  record IsSteady (f : Form) : Type 0 where
    one_per_key : IsOnePerKey f.sends
    current : (b : Body) → body f.fields ≡ some b → AgreesWith f.intent_key b f.sends

  agrees_new :
      (key : ℕ) (b : Body) (sends : List (ℕ × Body)) → IsNew key sends → AgreesWith key b sends
  agrees_new key b [] n = tt
  agrees_new key b (s ∷ sends) (h, n) = ((λ e. absurd (h e)), agrees_new key b sends n)

  submitted-IsSteady :
      (f : Form) (o : Option Body) → body f.fields ≡ o → IsSteady f → IsSteady (sending f o)
  submitted-IsSteady f none e v = v
  submitted-IsSteady f (some b) e v = record {
    one_per_key = (v.current b e, v.one_per_key);
    current = λ b' e'. ((λ k. ground (arith, e, e')), v.current b' e');
  }

  failed-IsSteady :
      (f : Form) (e : Option ApiError) (key : ℕ)
      → IsNew key f.sends
      → IsSteady f
      → IsSteady (step (failed e key) f)
  unfolding step
  failed-IsSteady f e key n v = elim (Bool-cases (is_decided e)) [
    | inl y ↦ record {
      one_per_key = v.one_per_key;
      current = λ b h. rw y (agrees_new key b f.sends n);
    }
    | inr m ↦ record { one_per_key = v.one_per_key; current = λ b h. rw m (v.current b h) }
  ]

  step-IsSteady : (e : Event) (f : Form) → IsAllowed e f → IsSteady f → IsSteady (step e f)
  unfolding step
  step-IsSteady (edited fields key) f n v = record {
    one_per_key = v.one_per_key;
    current = λ b h. agrees_new key b f.sends n;
  }
  step-IsSteady (adjusted fields) f (inl same) v = record {
    one_per_key = v.one_per_key;
    current = λ b h. v.current b (sym same ∙ h);
  }
  step-IsSteady (adjusted fields) f (inr (inl nothing)) v = record {
    one_per_key = v.one_per_key;
    current = λ b h. absurd (ground (arith, nothing, h));
  }
  step-IsSteady (adjusted fields) f (inr (inr n)) v = record {
    one_per_key = v.one_per_key;
    current = λ b h. agrees_new f.intent_key b f.sends n;
  }
  step-IsSteady submitted f n v = submitted-IsSteady f (body f.fields) refl v
  step-IsSteady (succeeded key) f n v = record {
    one_per_key = v.one_per_key;
    current = λ b h. agrees_new key b f.sends n;
  }
  step-IsSteady (failed e key) f n v = failed-IsSteady f e key n v

  run-IsSteady : (es : List Event) (f : Form) → AllAllowed es f → IsSteady f → IsSteady (run es f)
  run-IsSteady [] f h v = v
  run-IsSteady (e ∷ es) f (k, h) v = run-IsSteady es (step e f) h (step-IsSteady e f k v)

  -- However the user edits, sends, retries and sends again while a request is under way, two requests
  -- of a form that carry the same idempotency key are the same request, so that the server never
  -- takes a retry for a conflict; random keys are new, and no effect turns a request that was
  -- sent into another under its key.
  pub run-IsOnePerKey :
      (es : List Event) (f : Form) → f.sends ≡ [] → AllAllowed es f → IsOnePerKey (run es f).sends
  run-IsOnePerKey es f e h =
      (run-IsSteady es f h (record { one_per_key = rw e tt; current = λ b k. rw e tt })).one_per_key
