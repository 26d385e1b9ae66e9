-- ===== src/Peer/Engine.antt =====
-- RemoteControl_rtc/RemoteControl_rtc/WebRtcEngine.cpp. What libwebrtc answers is an argument.
use webrtc_cpp_remote_contro.Base.{
  ℕ, ◌+◌, ◌≡◌, refl, Bool, true, false, not, ◌&&◌, List, [], ◌∷◌, ◌++◌, arith, if◌then◌else◌,
}

-- `factory_` by whether it is set.
pub record Engine : Type 0 where
  pub initialized : Bool
  pub factory : Bool

-- A successful `LibWebRTC::Initialize`, `LibWebRTC::Terminate`, and `Terminate` of the factory.
pub data Call : Type 0 where
  library_opened library_terminated factory_terminated : Call

-- `library` is the answer of `LibWebRTC::Initialize`, `created` whether a factory was created, `started`
-- the answer of its `Initialize`. The last component is the result.
unfoldable pub initialize : Engine → Bool → Bool → Bool → (Engine × List Call) × Bool
initialize e library created started =
    if e.initialized
    then ((e, []), true)
    else if not library
    then ((e, []), false)
    else if not (created && started)
    then ((record e { factory = false }, library_opened ∷ library_terminated ∷ []), false)
    else ((record { initialized = true; factory = true }, library_opened ∷ []), true)

unfoldable pub shutdown : Engine → Engine × List Call
shutdown e = if not e.initialized then (e, []) else (
  record { initialized = false; factory = false },
  (if e.factory then factory_terminated ∷ [] else []) ++ (library_terminated ∷ []),
)

pub data Operation : Type 0 where
  initializes : Bool → Bool → Bool → Operation
  shuts_down : Operation

unfoldable pub operate : Engine → Operation → Engine × List Call
unfolding initialize shutdown
operate e (initializes library created started) = (initialize e library created started).0
operate e shuts_down = shutdown e

unfoldable pub operate_all : Engine → List Operation → Engine × List Call
unfolding operate
operate_all e [] = (e, [])
operate_all e (o ∷ os) =
    let first = operate e o in let rest = operate_all first.0 os in (rest.0, first.1 ++ rest.1)

abbrev pub new_engine : Engine
new_engine = record { initialized = false; factory = false }

unfoldable pub opens : List Call → ℕ
opens [] = 0
opens (library_opened ∷ cs) = opens cs + 1
opens (_ ∷ cs) = opens cs

unfoldable pub terminations : List Call → ℕ
terminations [] = 0
terminations (library_terminated ∷ cs) = terminations cs + 1
terminations (_ ∷ cs) = terminations cs

opens-++ : (a b : List Call) → opens (a ++ b) ≡ opens a + opens b
unfolding opens
opens-++ [] b = omega arith
opens-++ (library_opened ∷ a) b = omega (arith, opens-++ a b)
opens-++ (library_terminated ∷ a) b = opens-++ a b
opens-++ (factory_terminated ∷ a) b = opens-++ a b

terminations-++ : (a b : List Call) → terminations (a ++ b) ≡ terminations a + terminations b
unfolding terminations
terminations-++ [] b = omega arith
terminations-++ (library_terminated ∷ a) b = omega (arith, terminations-++ a b)
terminations-++ (library_opened ∷ a) b = terminations-++ a b
terminations-++ (factory_terminated ∷ a) b = terminations-++ a b

abbrev held : Engine → ℕ
held e = if e.initialized then 1 else 0

-- A step keeps the account of the library, and the factory is there exactly while it is initialized.
abbrev Balanced : Engine → Engine × List Call → Type 0
Balanced e r = (r.0.factory ≡ r.0.initialized) × (opens r.1 + held e ≡ terminations r.1 + held r.0)

operate-Balanced :
    (e : Engine) (o : Operation) → e.factory ≡ e.initialized → Balanced e (operate e o)
unfolding operate opens terminations
operate-Balanced e (initializes library created started) h = ground (arith)
operate-Balanced e shuts_down h = ground (arith)

operate_all-Balanced :
    (e : Engine) (os : List Operation) → e.factory ≡ e.initialized → Balanced e (operate_all e os)
unfolding operate_all opens terminations
operate_all-Balanced e [] h = (h, refl)
operate_all-Balanced e (o ∷ os) h =
    let (same, first) = operate-Balanced e o h in
    let (last, rest) = operate_all-Balanced (operate e o).0 os same in
    let more = operate_all (operate e o).0 os in
    (
      last,
      omega (
        arith,
        first,
        rest,
        opens-++ (operate e o).1 more.1,
        terminations-++ (operate e o).1 more.1,
      ),
    )

-- Whatever is called in whatever order on a new engine, and whatever libwebrtc answers, the engine has
-- a factory exactly while it is initialized, and the library was opened as often as it was terminated,
-- and once more while the engine is initialized.
pub library_balanced :
    (os : List Operation)
    → let r = operate_all new_engine os in
      (r.0.factory ≡ r.0.initialized)
      × (opens r.1 ≡ terminations r.1 + (if r.0.initialized then 1 else 0))
library_balanced os =
    let (same, balance) = operate_all-Balanced new_engine os refl in (same, omega (arith, balance))
