-- ===== src/Session/Exclusion.antt =====
-- Threads that share one session, as interleavings of its operations, and what the lease excludes.
-- `leases` counts the live `RunLease` objects that are not moved from; only the generation that holds
-- one appends through `append_from_client` and releases.
use neural_plus.Prelude.{
  ℕ, suc, ◌≤◌, ◌≡◌, ◌≢◌, ◌↔◌, ◌<◌, Bytes, true, false, some, List, [], ◌∷◌, ◌++◌, any, append-nil,
  sym, arith,
}
use neural_plus.Outcome.{ok}
use neural_plus.Types.Message.{Message}
use neural_plus.Session.{
  Session, SessionOptions, is_system, construct, set_system, append, clear_messages, acquire,
  release, append_from_client,
}

pub record Shared : Type 0 where
  pub session : Session
  pub leases : ℕ

pub data Actor : Type 0 where
  anyone owner : Actor

pub data Step : Actor → Shared → Shared → Type 0 where
  sets_system :
      (t : Shared) (m : Bytes) (s : Session)
      → set_system m t.session ≡ ok s
      → Step anyone t (record t { session = s })
  appends :
      (t : Shared) (m : Message) (s : Session)
      → append m t.session ≡ ok s
      → Step anyone t (record t { session = s })
  clears :
      (t : Shared) (s : Session)
      → clear_messages t.session ≡ ok s
      → Step anyone t (record t { session = s })
  acquires :
      (t : Shared) (s : Session)
      → acquire t.session ≡ ok s
      → Step anyone t (record { session = s; leases = suc t.leases })
  client_appends :
      (t : Shared) (m : Message) (s : Session)
      → 0 < t.leases
      → append_from_client m t.session ≡ ok s
      → Step owner t (record t { session = s })
  releases :
      (t : Shared) (n : ℕ)
      → t.leases ≡ suc n
      → Step owner t (record { session = release t.session; leases = n })

pub data Reach (t : Shared) : Shared → Type 0 where
  here : Reach t t
  next : {u v : Shared} {a : Actor} → Reach t u → Step a u v → Reach t v

pub record IsExclusive (t : Shared) : Type 0 where
  pub idle : t.session.active ≡ false → t.leases ≡ 0
  pub leased : t.session.active ≡ true → t.leases ≡ 1
  pub history : any is_system t.session.messages ≡ false
  pub instruction : t.session.system_message ≢ some []

any-snoc :
    (ms : List Message) (m : Message)
    → any is_system ms ≡ false
    → is_system m ≡ false
    → any is_system (ms ++ m ∷ []) ≡ false
any-snoc [] m h k = ground arith
any-snoc (x ∷ ms) m h k = ground (arith, any-snoc ms m)

Step-IsExclusive : {a : Actor} {t u : Shared} → Step a t u → IsExclusive t → IsExclusive u
unfolding set_system append clear_messages acquire release append_from_client
Step-IsExclusive (sets_system t m s e) h = ground arith
Step-IsExclusive (appends t m s e) h = ground (arith, any-snoc t.session.messages m)
Step-IsExclusive (clears t s e) h = ground arith
Step-IsExclusive (acquires t s e) h = ground arith
Step-IsExclusive (client_appends t m s p e) h = ground (arith, any-snoc t.session.messages m)
Step-IsExclusive (releases t n e) h = ground arith

Reach-IsExclusive : {t u : Shared} → Reach t u → IsExclusive t → IsExclusive u
Reach-IsExclusive here h = h
Reach-IsExclusive (next r st) h = Step-IsExclusive st (Reach-IsExclusive r h)

abbrev pub fresh : Session → Shared
fresh s = record { session = s; leases = 0 }

fresh-IsExclusive :
    (counter : ℕ) (options : SessionOptions) (s : Session)
    → (construct counter options).0 ≡ ok s
    → IsExclusive (fresh s)
unfolding construct
fresh-IsExclusive counter options s e = ground arith

-- However the operations of any threads interleave on a session that the constructor accepted, at
-- most one lease is live, the flag is set exactly while one is, the history never holds a system
-- message, and the system instruction is never the empty text.
pub lease_exclusion :
    (counter : ℕ) (options : SessionOptions) (s : Session) (t : Shared)
    → (construct counter options).0 ≡ ok s
    → Reach (fresh s) t
    → (t.leases ≤ 1)
      × ((t.session.active ≡ true) ↔ (t.leases ≡ 1))
      × (any is_system t.session.messages ≡ false)
      × (t.session.system_message ≢ some [])
lease_exclusion counter options s t e r =
    let v = Reach-IsExclusive r (fresh-IsExclusive counter options s e) in
    (ground arith, (v.leased, ground arith), v.history, v.instruction)

-- While a session is leased, no operation that is open to everyone gets through: setting the system
-- instruction, appending, clearing and a second lease all throw.
pub leased_frozen : {t u : Shared} → t.session.active ≡ true → ¬ Step anyone t u
unfolding set_system append clear_messages acquire
leased_frozen h (sets_system t m s e) = ground arith
leased_frozen h (appends t m s e) = ground arith
leased_frozen h (clears t s e) = ground arith
leased_frozen h (acquires t s e) = ground arith

-- History only grows while it is leased: whatever step is made, the old messages stay a prefix.
pub leased_grows :
    {a : Actor} {t u : Shared}
    → t.session.active ≡ true
    → Step a t u
    → (more : List Message) × (u.session.messages ≡ t.session.messages ++ more)
unfolding append_from_client release
leased_grows h (client_appends t m s p e) = (m ∷ [], ground arith)
leased_grows h (releases t n e) = ([], sym (append-nil t.session.messages))
leased_grows h (sets_system t m s e) = absurd (leased_frozen h (sets_system t m s e))
leased_grows h (appends t m s e) = absurd (leased_frozen h (appends t m s e))
leased_grows h (clears t s e) = absurd (leased_frozen h (clears t s e))
leased_grows h (acquires t s e) = absurd (leased_frozen h (acquires t s e))
