-- ===== src/Media/Frames.antt =====
-- The frames that come in and the frames that are decoded.
use vncc.Base.{
  if_true, if_false, ℕ, ◌≡◌, ◌∙◌, sym, ap, ap₂, refl, subst, Bool-cases, true, false, not, ◌&&◌,
  if◌then◌else◌, List, [], ◌∷◌, ◌++◌, Option, inl, inr, append_assoc, append-nil, arith,
}
use vncc.Control.{av_conn}
use vncc.Control.Conn.{up, down}
use vncc.Media.{
  Media, kframe_at_start, rate_messages, post_frame, first_frame, video_cb, audio_cb, is_fatal,
  msg_cb, decode_first, decode_video, MediaEvent, video, audio, message, decode, handle, run_media,
}

-- A renderer that is up and has shown its start animation, in the middle of a session.
pub record IsUp (s : Media) : Type 0 where
  pub ready : s.video_ok ≡ true
  pub going : s.done ≡ false
  pub gate : s.hand_kframe ≡ true
  pub shown : s.play_done ≡ true
  pub renders : s.stop_render ≡ false
  pub runs : s.exited ≡ false

-- A renderer at its first event, its statics as they start, with the video decoder made, the start
-- animation shown and the rendering not stopped.
pub record IsLaunched (s : Media) : Type 0 where
  pub made : s.video_ok ≡ true
  pub going : s.done ≡ false
  pub gate : s.hand_kframe ≡ kframe_at_start
  pub shown : s.play_done ≡ true
  pub renders : s.stop_render ≡ false
  pub runs : s.exited ≡ false
  pub none_posted : s.posted ≡ []
  pub none_decoded : s.decoded ≡ []

-- The frames that come before a message that ends the connection.
abbrev pub frames_in : (List ℕ → Option ℕ) → List MediaEvent → List (List ℕ)
frames_in parse [] = []
frames_in parse (video bytes ∷ es) = bytes ∷ frames_in parse es
frames_in parse (audio bytes ∷ es) = frames_in parse es
frames_in parse (message bytes ∷ es) = if is_fatal (parse bytes) then [] else frames_in parse es
frames_in parse (decode ∷ es) = frames_in parse es

-- The frames that the renderer has, decoded ones first.
abbrev pub frames_had : Media → List (List ℕ)
frames_had s = s.decoded ++ s.posted

-- What an event that does not end the connection does to a renderer that is up.
pub record Kept (s t : Media) (new : List (List ℕ)) : Type 0 where
  pub up_still : IsUp t
  pub had : frames_had t ≡ frames_had s ++ new

pub post_frame-eq :
    (bytes : List ℕ) (s : Media)
    → s.hand_kframe ≡ true
    → post_frame bytes s ≡ record s { hand_kframe = true; posted = s.posted ++ (bytes ∷ []) }
unfolding post_frame
post_frame-eq bytes s e = rw e

first_frame-Kept : (s t : Media) (new : List (List ℕ)) → Kept s t new → Kept s (first_frame t) new
unfolding first_frame
first_frame-Kept s t new k = elim (Bool-cases t.first_v_frame) [
  | inl e ↦ subst (λ u. Kept s u new) (same e) k
  | inr e ↦
      subst (λ u. Kept s u new) (announced e)
        (record {
          up_still = record {
            ready = k.up_still.ready;
            going = k.up_still.going;
            gate = k.up_still.gate;
            shown = k.up_still.shown;
            renders = k.up_still.renders;
            runs = k.up_still.runs;
          };
          had = k.had;
        })
]
  where
    same : t.first_v_frame ≡ true → t ≡ first_frame t
    same e = sym (if_true t.first_v_frame _ _ e)

    announced :
        t.first_v_frame ≡ false
        → record t {
          first_v_frame = true;
          conn = up av_conn ∷ t.conn;
          sent = t.sent ++ rate_messages t.auto_rate t.bitrate;
        }
          ≡ first_frame t
    announced e = sym (if_false t.first_v_frame _ _ e)

pub video_cb-eq :
    (bytes : List ℕ) (s : Media) → IsUp s → video_cb bytes s ≡ first_frame (post_frame bytes s)
unfolding video_cb
video_cb-eq bytes s v = if_true s.video_ok _ _ v.ready ∙ if_false s.done _ _ v.going

pub video_cb-Kept : (bytes : List ℕ) (s : Media) → IsUp s → Kept s (video_cb bytes s) (bytes ∷ [])
video_cb-Kept bytes s v =
    subst (λ t. Kept s t (bytes ∷ [])) (sym (video_cb-eq bytes s v))
      (first_frame-Kept s (post_frame bytes s) (bytes ∷ []) (
        subst (λ t. Kept s t (bytes ∷ [])) (sym (post_frame-eq bytes s v.gate))
          (record {
            up_still = record {
              ready = v.ready;
              going = v.going;
              gate = refl;
              shown = v.shown;
              renders = v.renders;
              runs = v.runs;
            };
            had = sym (append_assoc s.decoded s.posted (bytes ∷ []));
          })))

same-Kept : (s : Media) → IsUp s → Kept s s []
same-Kept s v = record { up_still = v; had = sym (append-nil (frames_had s)) }

-- The same renderer but for what the audio decoder was given.
opus-Kept : (s : Media) (xs : List (List ℕ)) → IsUp s → Kept s (record s { opus = xs }) []
opus-Kept s xs v = record {
  up_still = record {
    ready = v.ready;
    going = v.going;
    gate = v.gate;
    shown = v.shown;
    renders = v.renders;
    runs = v.runs;
  };
  had = sym (append-nil (frames_had s));
}

pub audio_cb-Kept : (bytes : List ℕ) (s : Media) → IsUp s → Kept s (audio_cb bytes s) []
unfolding audio_cb
audio_cb-Kept bytes s v = elim (Bool-cases s.audio_ok) [
  | inr e ↦ subst (λ t. Kept s t []) (sym (if_false s.audio_ok _ _ e)) (same-Kept s v)
  | inl e ↦
      subst (λ t. Kept s t []) (sym (if_true s.audio_ok _ _ e ∙ if_false s.done _ _ v.going))
        (opus-Kept s (s.opus ++ (bytes ∷ [])) v)
]

decode_first-Kept :
    (s : Media) (xs : List (List ℕ)) → s.posted ≡ xs → IsUp s → Kept s (decode_first xs s) []
decode_first-Kept s [] e v = same-Kept s v
decode_first-Kept s (bytes ∷ rest) e v =
    subst (λ t. Kept s t []) (sym decodes)
      (record {
        up_still = record {
          ready = v.ready;
          going = v.going;
          gate = v.gate;
          shown = v.shown;
          renders = v.renders;
          runs = v.runs;
        };
        had =
            append_assoc s.decoded (bytes ∷ []) rest
            ∙ ap (◌++◌ s.decoded) (sym e)
            ∙ sym (append-nil (frames_had s));
      })
  where
    decodes :
        decode_first (bytes ∷ rest) s
        ≡ record s { posted = rest; decoded = s.decoded ++ (bytes ∷ []) }
    decodes = if_true (s.play_done && not s.stop_render) _ _ (ground (arith, v.shown, v.renders))

pub decode_video-Kept : (s : Media) → IsUp s → Kept s (decode_video s) []
unfolding decode_video
decode_video-Kept s v = decode_first-Kept s s.posted refl v

pub msg_cb-Kept :
    (parse : List ℕ → Option ℕ) (bytes : List ℕ) (s : Media)
    → is_fatal (parse bytes) ≡ false
    → IsUp s
    → Kept s (msg_cb parse bytes s) []
unfolding msg_cb
msg_cb-Kept parse bytes s e v =
    subst (λ t. Kept s t []) (sym (if_false (is_fatal (parse bytes)) _ _ e)) (same-Kept s v)

pub msg_cb-ends :
    (parse : List ℕ → Option ℕ) (bytes : List ℕ) (s : Media)
    → is_fatal (parse bytes) ≡ true
    → IsUp s
    → msg_cb parse bytes s ≡ record s { conn = down av_conn ∷ s.conn; exited = true }
unfolding msg_cb
msg_cb-ends parse bytes s e v = if_true (is_fatal (parse bytes)) _ _ e ∙ if_false s.done _ _ v.going

pub run-exited :
    (parse : List ℕ → Option ℕ) (es : List MediaEvent) (s : Media)
    → s.exited ≡ true
    → run_media parse es s ≡ s
unfolding run_media
run-exited parse [] s e = refl
run-exited parse (x ∷ es) s e = if_true s.exited _ _ e

pub run-runs :
    (parse : List ℕ → Option ℕ) (x : MediaEvent) (es : List MediaEvent) (s : Media)
    → s.exited ≡ false
    → run_media parse (x ∷ es) s ≡ run_media parse es (handle parse x s)
unfolding run_media
run-runs parse x es s e = if_false s.exited _ _ e

module _ (parse : List ℕ → Option ℕ) where
  Kept-run :
      (s t : Media) (new more : List (List ℕ)) (r : Media)
      → Kept s t new
      → frames_had r ≡ frames_had t ++ more
      → frames_had r ≡ frames_had s ++ (new ++ more)
  Kept-run s t new more r k e =
      e ∙ ap (λ xs. xs ++ more) k.had ∙ append_assoc (frames_had s) new more

  -- The frames of a renderer whose gate for frames is open.
  pub frames_had-run_media :
      (es : List MediaEvent) (s : Media)
      → IsUp s
      → frames_had (run_media parse es s) ≡ frames_had s ++ frames_in parse es
  frames_had-run_media [] s v = unfold run_media in sym (append-nil (frames_had s))
  frames_had-run_media (video bytes ∷ es) s v =
      ap frames_had (run-runs parse (video bytes) es s v.runs)
      ∙ Kept-run s _ (bytes ∷ []) (frames_in parse es) (run_media parse es (video_cb bytes s))
          (video_cb-Kept bytes s v)
          (frames_had-run_media es (video_cb bytes s) (video_cb-Kept bytes s v).up_still)
  frames_had-run_media (audio bytes ∷ es) s v =
      ap frames_had (run-runs parse (audio bytes) es s v.runs)
      ∙ Kept-run s _ [] (frames_in parse es) (run_media parse es (audio_cb bytes s))
          (audio_cb-Kept bytes s v)
          (frames_had-run_media es (audio_cb bytes s) (audio_cb-Kept bytes s v).up_still)
  frames_had-run_media (decode ∷ es) s v =
      ap frames_had (run-runs parse decode es s v.runs)
      ∙ Kept-run s _ [] (frames_in parse es) (run_media parse es (decode_video s))
          (decode_video-Kept s v)
          (frames_had-run_media es (decode_video s) (decode_video-Kept s v).up_still)
  frames_had-run_media (message bytes ∷ es) s v = elim (Bool-cases (is_fatal (parse bytes))) [
    | inl e ↦
        ap frames_had (run-runs parse (message bytes) es s v.runs)
        ∙ ap (λ t. frames_had (run_media parse es t)) (msg_cb-ends parse bytes s e v)
        ∙ ap frames_had (run-exited parse es _ refl)
        ∙ sym (append-nil (frames_had s))
        ∙ ap (◌++◌ (frames_had s)) (sym (if_true (is_fatal (parse bytes)) _ _ e))
    | inr e ↦
        ap frames_had (run-runs parse (message bytes) es s v.runs)
        ∙ Kept-run s _ [] (frames_in parse es) (run_media parse es (msg_cb parse bytes s))
            (msg_cb-Kept parse bytes s e v)
            (frames_had-run_media es (msg_cb parse bytes s)
              (msg_cb-Kept parse bytes s e v).up_still)
        ∙ ap (◌++◌ (frames_had s)) (sym (if_false (is_fatal (parse bytes)) _ _ e))
  ]

  -- From the start of a renderer whose video decoder is made, whose start animation is shown and whose
  -- rendering is not stopped, the frames that it has, decoded or posted, are all the frames that come
  -- before a message that ends the connection, in order: the first of them too, even if they are no key
  -- frames.
  pub frames_had-launched :
      (es : List MediaEvent) (s : Media)
      → IsLaunched s
      → frames_had (run_media parse es s) ≡ frames_in parse es
  frames_had-launched es s l =
      frames_had-run_media es s is_up
      ∙ ap (λ fs. fs ++ frames_in parse es) (ap₂ ◌++◌ l.none_decoded l.none_posted)
    where
      is_up : IsUp s
      is_up = record {
        ready = l.made;
        going = l.going;
        gate = l.gate;
        shown = l.shown;
        renders = l.renders;
        runs = l.runs;
      }
