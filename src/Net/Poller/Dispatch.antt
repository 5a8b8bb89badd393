-- ===== src/Net/Poller/Dispatch.antt =====
-- `Channel::handleEvent`, over any world `W` that the callbacks change.
use ssxrver.Prelude.{
  ◌≡◌, refl, sym, ap, ◌∙◌, Bool, true, false, not, ◌&&◌, ◌||◌, Option, none, some, List, [], ◌∷◌,
  ◌++◌, arith, ◌>>=◌,
}
use ssxrver.Net.Events.{Events}
use ssxrver.Net.Poller.{Channel}

pub data Callback : Type 0 where
  on_close on_error on_read on_write : Callback

-- A world with the channel in it, and the callbacks that are set.
pub record Host : Type 1 where
  pub World : Type 0
  pub channel : World → Channel
  pub put : World → Channel → World
  pub callback : Callback → Option (World → Option World)

-- `(revents_ & EPOLLHUP) && !(revents_ & EPOLLIN)`.
abbrev pub hung_up : Events → Bool
hung_up e = e.epoll_hup && not e.epoll_in

-- `revents_ & (EPOLLIN | EPOLLPRI | EPOLLHUP)`.
abbrev pub readable : Events → Bool
readable e = e.epoll_in || e.epoll_pri || e.epoll_hup

module _ (h : Host) where
  open h use {World, channel, put, callback}

  call_set : Option (World → Option World) → World → Option World
  call_set none w = some w
  call_set (some f) w = f w

  call : Bool → Callback → World → Option World
  unfolding call_set
  call false cb w = some w
  call true cb w = call_set (callback cb) w

  abbrev revents : World → Events
  revents w = (channel w).revents

  set_handling : World → Bool → World
  set_handling w b = put w (record (channel w) { event_handling = b })

  handle_event : World → Option World
  unfolding call set_handling
  handle_event w = do
    let start = set_handling w true
    w1 ← call (hung_up (revents start)) on_close start
    w2 ← call (revents w1).epoll_err on_error w1
    w3 ← call (readable (revents w2)) on_read w2
    w4 ← call (revents w3).epoll_out on_write w3
    some (set_handling w4 false)

abbrev when {ℓ} : {A : Type ℓ} → Bool → A → List A
when true a = a ∷ []
when false a = []

-- The callbacks that a mask asks for, in the order in which they are called.
pub called : Events → List Callback
called e =
    when (hung_up e) on_close
    ++ (when e.epoll_err on_error ++ (when (readable e) on_read ++ when e.epoll_out on_write))

bind_cong {ℓ κ} :
    {A : Type ℓ} {B : Type κ} (m : Option A) (f g : A → Option B)
    → ((a : A) → m ≡ some a → f a ≡ g a)
    → (m >>= f) ≡ (m >>= g)
bind_cong none f g h = refl
bind_cong (some a) f g h = h a refl

bind_some {ℓ} : {A : Type ℓ} (m : Option A) → (m >>= some) ≡ m
bind_some none = refl
bind_some (some a) = refl

bind_assoc {ℓ κ μ} :
    {A : Type ℓ} {B : Type κ} {C : Type μ} (m : Option A) (f : A → Option B) (g : B → Option C)
    → ((m >>= f) >>= g) ≡ (m >>= λ a. f a >>= g)
bind_assoc none f g = refl
bind_assoc (some a) f g = refl

module _ (h : Host) where
  open h use {World, channel, put, callback}

  run_all : List Callback → World → Option World
  unfolding call_set
  run_all [] w = some w
  run_all (cb ∷ cbs) w = call_set h (callback cb) w >>= run_all cbs

  run_all-append :
      (xs ys : List Callback) (w : World) → run_all (xs ++ ys) w ≡ (run_all xs w >>= run_all ys)
  unfolding run_all
  run_all-append [] ys w = refl
  run_all-append (cb ∷ xs) ys w =
      bind_cong (call_set h (callback cb) w) (run_all (xs ++ ys))
        (λ w'. run_all xs w' >>= run_all ys) (λ w' e. run_all-append xs ys w')
      ∙ sym (bind_assoc (call_set h (callback cb) w) (run_all xs) (run_all ys))

  call-run_all : (b : Bool) (cb : Callback) (w : World) → call h b cb w ≡ run_all (when b cb) w
  unfolding call run_all
  call-run_all true cb w = sym (bind_some (call_set h (callback cb) w))
  call-run_all false cb w = refl

module _ (h : Host) (put_lens : (w : h.World) (c : Channel) → h.channel (h.put w c) ≡ c)
    (keeps : (cb : Callback) (f : h.World → Option h.World) (w w' : h.World)
      → h.callback cb ≡ some f
      → f w ≡ some w'
      → (h.channel w').revents ≡ (h.channel w).revents) where
  open h use {World, channel, put, callback}

  call_set-revents :
      (cb : Callback) (o : Option (World → Option World)) (w w' : World)
      → callback cb ≡ o
      → call_set h o w ≡ some w'
      → (channel w').revents ≡ (channel w).revents
  unfolding call_set
  call_set-revents cb none w w' e r = ground arith
  call_set-revents cb (some f) w w' e r = keeps cb f w w' e r

  call-revents :
      (b : Bool) (cb : Callback) (w w' : World)
      → call h b cb w ≡ some w'
      → (channel w').revents ≡ (channel w).revents
  unfolding call
  call-revents true cb w w' r = call_set-revents cb (callback cb) w w' refl r
  call-revents false cb w w' r = ground arith

  finish : World → Option World
  finish w = some (set_handling h w false)

  -- The calls with the mask read once; `handle_event` reads it before each.
  write_stage : Events → World → Option World
  write_stage e w = call h e.epoll_out on_write w >>= finish

  read_stage : Events → World → Option World
  read_stage e w = call h (readable e) on_read w >>= write_stage e

  error_stage : Events → World → Option World
  error_stage e w = call h e.epoll_err on_error w >>= read_stage e

  abbrev mask : World → Events
  mask w = (channel w).revents

  read_once :
      (e : Events) (w : World)
      → mask w ≡ e
      → (call h (readable (mask w)) on_read w >>= λ w'. write_stage (mask w') w') ≡ read_stage e w
  unfolding read_stage
  read_once e w q =
      ap (λ m. call h (readable m) on_read w >>= λ w'. write_stage (mask w') w') q
      ∙ bind_cong (call h (readable e) on_read w) (λ w'. write_stage (mask w') w') (write_stage e)
          (λ w' r. ap (λ m. write_stage m w') (call-revents (readable e) on_read w w' r ∙ q))

  abbrev read_again : World → Option World
  read_again w = call h (readable (mask w)) on_read w >>= λ w'. write_stage (mask w') w'

  error_once :
      (e : Events) (w : World)
      → mask w ≡ e
      → (call h (mask w).epoll_err on_error w >>= read_again) ≡ error_stage e w
  unfolding error_stage
  error_once e w q =
      ap (λ m. call h m.epoll_err on_error w >>= read_again) q
      ∙ bind_cong (call h e.epoll_err on_error w) read_again (read_stage e)
          (λ w' r. read_once e w' (call-revents e.epoll_err on_error w w' r ∙ q))

  abbrev error_again : World → Option World
  error_again w = call h (mask w).epoll_err on_error w >>= read_again

  close_once :
      (e : Events) (w : World)
      → mask w ≡ e
      → (call h (hung_up (mask w)) on_close w >>= error_again)
        ≡ (call h (hung_up e) on_close w >>= error_stage e)
  close_once e w q =
      ap (λ m. call h (hung_up m) on_close w >>= error_again) q
      ∙ bind_cong (call h (hung_up e) on_close w) error_again (error_stage e)
          (λ w' r. error_once e w' (call-revents (hung_up e) on_close w w' r ∙ q))

  -- One call before a list of calls.
  first_call :
      (b : Bool) (cb : Callback) (rest : List Callback) (k : World → Option World) (w : World)
      → ((w' : World) → k w' ≡ (run_all h rest w' >>= finish))
      → (call h b cb w >>= k) ≡ (run_all h (when b cb ++ rest) w >>= finish)
  first_call b cb rest k w hk =
      bind_cong (call h b cb w) k (λ w'. run_all h rest w' >>= finish) (λ w' r. hk w')
      ∙ sym (bind_assoc (call h b cb w) (run_all h rest) finish)
      ∙ ap (λ m. (m >>= run_all h rest) >>= finish) (call-run_all h b cb w)
      ∙ ap (λ m. m >>= finish) (sym (run_all-append h (when b cb) rest w))

  staged :
      (e : Events) (w : World)
      → (call h (hung_up e) on_close w >>= error_stage e) ≡ (run_all h (called e) w >>= finish)
  unfolding error_stage read_stage write_stage called
  staged e w = first_call (hung_up e) on_close _ (error_stage e) w λ w1.
      first_call e.epoll_err on_error _ (read_stage e) w1 λ w2.
        first_call (readable e) on_read _ (write_stage e) w2
          λ w3. ap (λ m. m >>= finish) (call-run_all h e.epoll_out on_write w3)

  -- Where no callback writes the mask of the event, `handleEvent` makes just the calls that the
  -- mask asks for, in their order, between setting and clearing `eventHandling_`; an abort in one
  -- of them ends it.
  handle_event-called :
      (w : World)
      → handle_event h w ≡ (
          run_all h (called (channel w).revents) (set_handling h w true) >>= λ w'.
          some (set_handling h w' false))
  unfolding handle_event finish write_stage
  handle_event-called w =
      close_once (channel w).revents (set_handling h w true)
        (unfold set_handling in ap (λ c. c.revents) (put_lens w _))
      ∙ staged (channel w).revents (set_handling h w true)
