-- ===== src/Client/Rounds/Refusal.antt =====
-- The calls of `AIClient::generate` (src/client.cpp) that do not start.
use neural_plus.Prelude.{
  ℕ, ◌*◌, ◌^◌, ◌<◌, Bytes, lit, same, same→eq, ◌≡◌, ◌≢◌, refl, ap, ◌∙◌, Bool, true, false,
  Bool-cases, not, inl, inr, ◌⊎◌, some, List, [], ◌∷◌, arith, is_empty,
}
use mathlib.Core.List.{Memᴰ}
use mathlib.Core.List.Memᴰ
use neural_plus.Outcome.{
  Result, ok, err, Error, invalid_argument, session_in_use_error, throw_if, ◌>>◌, >>-eq-ok,
}
use neural_plus.Exec.{continue}
use neural_plus.Json.{is_object}
use neural_plus.Types.Enums.{Role, ContentType, provider_to_string}
use neural_plus.Types.Content.{Content}
use neural_plus.Types.Message.{Message}
use neural_plus.Types.Records.{GenerateOptions, ModelDescriptor}
use neural_plus.Session.{Session}
use neural_plus.Session
use neural_plus.Client.Config.{AiClient}
use neural_plus.Client.Input.{
  validate_part, validate_parts, validate_input, validate_options, is_finite, is_negative, is_user,
  bad_temperature, zero_limit,
}
use neural_plus.Client.Execute.{Library, Batch, World}
use neural_plus.Client.Rounds.{GenerateOnce, generate, with_lease}

-- A part that the model does not take.
pub data Unsupported (model : ModelDescriptor) (c : Content) : Type 0 where
  no_text : c.type ≡ ContentType.text → model.capabilities.text_input ≡ false → Unsupported model c
  empty_text : c.type ≡ ContentType.text → c.value ≡ [] → Unsupported model c
  no_image :
      c.type ≡ ContentType.image → model.capabilities.image_input ≡ false → Unsupported model c
  no_audio :
      c.type ≡ ContentType.audio → model.capabilities.audio_input ≡ false → Unsupported model c
  no_file : c.type ≡ ContentType.file → model.capabilities.file_input ≡ false → Unsupported model c
  other_provider :
      c.type ≡ ContentType.extension
      → c.provider ≢ provider_to_string model.provider
      → Unsupported model c

-- What is wrong with a call, each by itself.
pub data Unfit (model : ModelDescriptor) (input : Message) (options : GenerateOptions)
    (active : Bool) : Type 0 where
  not_user : input.role ≢ Role.user → Unfit model input options active
  no_content : input.contents ≡ [] → Unfit model input options active
  unsupported :
      (c : Content) → Memᴰ c input.contents → Unsupported model c → Unfit model input options active
  infinite_temperature :
      options.temperature ≡ some (2047 * 2 ^ 52) → Unfit model input options active
  negative_temperature :
      (bits : ℕ)
      → options.temperature ≡ some bits
      → 2 ^ 63 < bits
      → Unfit model input options active
  zero_tokens : options.max_output_tokens ≡ some 0 → Unfit model input options active
  no_object : is_object options.provider_options ≡ false → Unfit model input options active
  in_use : active ≡ true → Unfit model input options active

validate_part-Unsupported :
    (model : ModelDescriptor) (c : Content)
    → validate_part model c ≡ ok tt
    → Unsupported model c
    → ⊥
unfolding validate_part
validate_part-Unsupported model c h (no_text t n) = ground arith
validate_part-Unsupported model c h (empty_text t n) = ground arith
validate_part-Unsupported model c h (no_image t n) = ground arith
validate_part-Unsupported model c h (no_audio t n) = ground arith
validate_part-Unsupported model c h (no_file t n) = ground arith
validate_part-Unsupported model c h (other_provider t n) =
    elim (Bool-cases (same c.provider (provider_to_string model.provider))) [
      | inl e ↦ absurd (n (same→eq c.provider (provider_to_string model.provider) e))
      | inr e ↦ ground arith
    ]

validate_parts-Memᴰ :
    (model : ModelDescriptor) (cs : List Content) (c : Content)
    → validate_parts model cs ≡ ok tt
    → Memᴰ c cs
    → validate_part model c ≡ ok tt
unfolding validate_parts
validate_parts-Memᴰ model [] c h m = absurd (Memᴰ.not-nil m)
validate_parts-Memᴰ model (d ∷ cs) c h (Memᴰ.head q) =
    ap (validate_part model) q ∙ (>>-eq-ok (validate_part model d) (validate_parts model cs) h).0
validate_parts-Memᴰ model (d ∷ cs) c h (Memᴰ.tail m) =
    validate_parts-Memᴰ model cs c (>>-eq-ok (validate_part model d) (validate_parts model cs) h).1
      m

-- A call whose checks all passed is not unfit.
accepted_not-Unfit :
    (model : ModelDescriptor) (input : Message) (options : GenerateOptions) (active : Bool)
    → validate_input model input ≡ ok tt
    → validate_options options ≡ ok tt
    → active ≡ false
    → Unfit model input options active
    → ⊥
unfolding validate_input validate_options
accepted_not-Unfit model input options active h k l (not_user n) = ground arith
accepted_not-Unfit model input options active h k l (no_content n) = ground arith
accepted_not-Unfit model input options active h k l (unsupported c m u) =
    let parts : validate_parts model input.contents ≡ ok tt = ground arith in
    validate_part-Unsupported model c (validate_parts-Memᴰ model input.contents c parts m) u
accepted_not-Unfit model input options active h k l (infinite_temperature e) =
    let bad : is_finite (2047 * 2 ^ 52) ≡ false = unfold is_finite in refl in ground (arith, bad)
accepted_not-Unfit model input options active h k l (negative_temperature bits e n) =
    let bad : is_negative bits ≡ true = unfold is_negative in ground arith in ground (arith, bad)
accepted_not-Unfit model input options active h k l (zero_tokens e) = ground arith
accepted_not-Unfit model input options active h k l (no_object e) = ground arith
accepted_not-Unfit model input options active h k l (in_use e) = ground arith

acquire-busy :
    (s : Session)
    → s.active ≡ true
    → Session.acquire s ≡ err (session_in_use_error (lit "session is already in use"))
unfolding Session.acquire
acquire-busy s busy = ground arith

-- The errors of the checks.
abbrev pub CallerError : Error → Type 0
CallerError (invalid_argument message) = Unit
CallerError (session_in_use_error message) = Unit
CallerError e = ⊥

-- A check passes, or its error is one of these.
Checks : Result (Unit {0}) → Type 0
Checks r = (r ≡ ok tt) ⊎ ((e : Error) × (r ≡ err e) × CallerError e)

throw_if-Checks : (b : Bool) (what : Bytes) → Checks (throw_if b (invalid_argument what))
unfolding Checks
throw_if-Checks true what = inr (invalid_argument what, refl, tt)
throw_if-Checks false what = inl refl

>>-Checks :
    (first second : Result (Unit {0})) → Checks first → Checks second → Checks (first >> second)
unfolding Checks
>>-Checks (ok tt) second p q = q
>>-Checks (err e) second (inl h) q = cc
>>-Checks (err e) second (inr h) q = inr h

validate_part-Checks : (model : ModelDescriptor) (c : Content) → Checks (validate_part model c)
unfolding validate_part
validate_part-Checks model c = of_type c.type refl
  where
    of_type : (t : ContentType) → c.type ≡ t → Checks (validate_part model c)
    of_type ContentType.text e =
        rw (e, validate_part)
          (>>-Checks _ _ (throw_if-Checks _ (lit "model does not support text input"))
            (throw_if-Checks _ (lit "text input must not be empty")))
    of_type ContentType.image e = rw (e, validate_part) (throw_if-Checks _ _)
    of_type ContentType.audio e = rw (e, validate_part) (throw_if-Checks _ _)
    of_type ContentType.file e = rw (e, validate_part) (throw_if-Checks _ _)
    of_type ContentType.extension e = rw (e, validate_part) (throw_if-Checks _ _)

validate_parts-Checks :
    (model : ModelDescriptor) (cs : List Content) → Checks (validate_parts model cs)
unfolding validate_parts
validate_parts-Checks model [] = unfold Checks in inl refl
validate_parts-Checks model (c ∷ cs) =
    >>-Checks (validate_part model c) (validate_parts model cs) (validate_part-Checks model c)
      (validate_parts-Checks model cs)

validate_input-Checks :
    (model : ModelDescriptor) (input : Message) → Checks (validate_input model input)
unfolding validate_input
validate_input-Checks model input =
    >>-Checks _ _
      (throw_if-Checks (not (is_user input.role)) (lit "generate input must have user role"))
      (>>-Checks _ _
        (throw_if-Checks (is_empty input.contents) (lit "generate input must contain content"))
        (validate_parts-Checks model input.contents))

validate_options-Checks : (options : GenerateOptions) → Checks (validate_options options)
unfolding validate_options
validate_options-Checks options =
    >>-Checks _ _
      (throw_if-Checks (bad_temperature options.temperature)
        (lit "temperature must be finite and greater than or equal to zero"))
      (>>-Checks _ _
        (throw_if-Checks (zero_limit options.max_output_tokens)
          (lit "max_output_tokens must be greater than zero"))
        (throw_if-Checks (not (is_object options.provider_options))
          (lit "provider_options must be a JSON object")))

module _ {S : Type 0} (lib : Library) (client : AiClient S) (generate_once : GenerateOnce S) where
  -- A call of `generate` throws an argument error, or the error of a session in use, and changes nothing, not
  -- the session, the run ids or the state of the application, so that there is no event and no request,
  -- if one of these is wrong, whatever else is right or wrong: the input is not a user's message, it has no
  -- content or a part that the model does not take (a kind of input that its capabilities leave out, an
  -- empty text, another provider's extension), the temperature is infinite or below zero, the limit of
  -- tokens is zero, the provider options are no object, or the session is in use.
  pub generate_refused :
      (plan : ℕ → ℕ → Batch) (input : Message) (options : GenerateOptions) (w : World S)
      → Unfit client.model input options w.session.active
      → (e : Error) × (generate lib client generate_once plan input options w ≡ (err e, w))
        × CallerError e
  unfolding generate with_lease continue Checks
  generate_refused plan input options w unfit = elim (validate_input-Checks client.model input) [
    | inr (e, bad, k) ↦ (e, rw (bad, generate) refl, k)
    | inl good ↦ elim (validate_options-Checks options) [
      | inr (e, bad, k) ↦ (e, rw (good, generate) (rw (bad, generate) refl), k)
      | inl good' ↦ elim (Bool-cases w.session.active) [
        | inl busy ↦ (
          session_in_use_error (lit "session is already in use"),
          rw (good, generate)
              (rw (good', generate) (rw (acquire-busy w.session busy, with_lease) refl)),
          tt,
        )
        | inr idle ↦
            absurd
              (accepted_not-Unfit client.model input options w.session.active good good' idle unfit)
      ]
    ]
  ]
