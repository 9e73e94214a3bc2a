-- ===== src/Thread/Life.antt =====
-- sylar/thread.cc: `Thread::join` and `Thread::~Thread`, as the calls that they make on the pthread
-- library, and `Thread::SetName` and `Thread::GetName`.
use sylar_server_study.Base.{
  ℕ, zero, suc, Bool, true, false, if◌then◌else◌, Text, List, [], ◌∷◌, ◌++◌, Option, none, some,
  ◌≡◌, refl, subst, Bool-cases, inl, inr,
}

-- `pthread_join`, with success or without, and `pthread_detach`.
pub data PthreadCall : Type 0 where
  joined join_failed detached : PthreadCall

-- Whether `m_thread` is not zero, and the calls so far.
pub record Handle : Type 0 where
  pub m_thread : Bool
  pub calls : List PthreadCall

-- Behind the constructor.
abbrev pub created : Handle
created = record { m_thread = true; calls = [] }

-- `Thread::join`, with whether `pthread_join` succeeds, and whether an exception is thrown.
unfoldable pub join : Bool → Handle → Handle × Bool
join success h =
    if h.m_thread
    then (if success
        then (record { m_thread = false; calls = h.calls ++ joined ∷ [] }, false)
        else (record h { calls = h.calls ++ join_failed ∷ [] }, true))
    else (h, false)

-- `Thread::~Thread`
unfoldable pub end_thread : Handle → Handle
end_thread h = if h.m_thread then record h { calls = h.calls ++ detached ∷ [] } else h

unfoldable pub join_each : Handle → List Bool → Handle
unfolding join
join_each h [] = h
join_each h (success ∷ rest) = join_each (join success h).0 rest

-- The name of the `Thread` object of this thread, if there is one, and `t_thread_name`.
pub record Names : Type 0 where
  pub object : Option Text
  pub t_thread_name : Text

-- `Thread::SetName` and `Thread::GetName`
unfoldable pub set_name : Text → Names → Names
set_name name n = elim n.object [
  | none ↦ record n { t_thread_name = name }
  | some old ↦ record { object = some name; t_thread_name = name }
]

unfoldable pub get_name : Names → Text
get_name n = n.t_thread_name

-- `thread->m_name.substr(0, 15)`, the name for the kernel.
unfoldable pub first_bytes : ℕ → Text → Text
first_bytes zero t = []
first_bytes (suc n) [] = []
first_bytes (suc n) (c ∷ t) = c ∷ first_bytes n t

abbrev pub kernel_name : Text → Text
kernel_name m_name = first_bytes 15 m_name

-- The thread is given back, by a join or by a detach, and not used after that.
abbrev pub Released : List PthreadCall → Type 0
Released [] = ⊥
Released (join_failed ∷ cs) = Released cs
Released (joined ∷ cs) = cs ≡ []
Released (detached ∷ cs) = cs ≡ []

abbrev AllFailed : List PthreadCall → Type 0
AllFailed [] = Unit
AllFailed (join_failed ∷ cs) = AllFailed cs
AllFailed (joined ∷ cs) = ⊥
AllFailed (detached ∷ cs) = ⊥

-- `m_thread` is set exactly while the thread has not been given back.
abbrev Agrees : Bool → List PthreadCall → Type 0
Agrees true cs = AllFailed cs
Agrees false cs = Released cs

AllFailed-append : (cs : List PthreadCall) → AllFailed cs → AllFailed (cs ++ join_failed ∷ [])
AllFailed-append [] h = tt
AllFailed-append (join_failed ∷ cs) h = AllFailed-append cs h
AllFailed-append (joined ∷ cs) h = h
AllFailed-append (detached ∷ cs) h = h

Released-joined : (cs : List PthreadCall) → AllFailed cs → Released (cs ++ joined ∷ [])
Released-joined [] h = refl
Released-joined (join_failed ∷ cs) h = Released-joined cs h
Released-joined (joined ∷ cs) h = absurd h
Released-joined (detached ∷ cs) h = absurd h

Released-detached : (cs : List PthreadCall) → AllFailed cs → Released (cs ++ detached ∷ [])
Released-detached [] h = refl
Released-detached (join_failed ∷ cs) h = Released-detached cs h
Released-detached (joined ∷ cs) h = absurd h
Released-detached (detached ∷ cs) h = absurd h

join-Agrees :
    (h : Handle) (success : Bool)
    → Agrees h.m_thread h.calls
    → Agrees (join success h).0.m_thread (join success h).0.calls
unfolding join
join-Agrees h success a = elim (Bool-cases h.m_thread) [
  | inl open' ↦ elim (Bool-cases success) [
    | inl ok ↦
        rw (open', ok, join) (Released-joined h.calls (subst (λ b. Agrees b h.calls) open' a))
    | inr bad ↦
        rw (open', bad, join) (AllFailed-append h.calls (subst (λ b. Agrees b h.calls) open' a))
  ]
  | inr closed ↦ rw (closed, join) (subst (λ b. Agrees b h.calls) closed a)
]

join_each-Agrees :
    (h : Handle) (rs : List Bool)
    → Agrees h.m_thread h.calls
    → Agrees (join_each h rs).m_thread (join_each h rs).calls
unfolding join_each
join_each-Agrees h [] a = a
join_each-Agrees h (success ∷ rs) a =
    join_each-Agrees (join success h).0 rs (join-Agrees h success a)

end_thread-Released : (h : Handle) → Agrees h.m_thread h.calls → Released (end_thread h).calls
unfolding end_thread
end_thread-Released h a = elim (Bool-cases h.m_thread) [
  | inl open' ↦
      rw (open', end_thread) (Released-detached h.calls (subst (λ b. Agrees b h.calls) open' a))
  | inr closed ↦ rw (closed, end_thread) (subst (λ b. Agrees b h.calls) closed a)
]

-- Whatever calls of `join` are made on a `Thread`, with whatever results of `pthread_join`, by the end
-- of its life the thread has been given back to the system exactly once, by the one join that
-- succeeded or else by the destructor, and it was not used after that.
pub join_each-Released : (rs : List Bool) → Released (end_thread (join_each created rs)).calls
join_each-Released rs = end_thread-Released (join_each created rs) (join_each-Agrees created rs tt)
