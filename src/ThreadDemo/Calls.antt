-- ===== src/ThreadDemo/Calls.antt =====
-- A step of main in a call of `createAndStartThread` in src/thread_demo.cpp keeps the invariant.
use lowlatency_cpp.Base.{ℕ, ◌≡◌, refl, sym, ◌∙◌, ap, Bool, false, Option, none, some, arith, subst}
use lowlatency_cpp.ThreadUtils as ThreadUtils
use lowlatency_cpp.ThreadUtils.{
  set_thread_core, cpu_setsize, Worker, in_task, finished, Creator, returned, thrown, Start,
  has_ended,
}
use lowlatency_cpp.ThreadUtils.Handshake as Handshake
use lowlatency_cpp.ThreadUtils.Handshake.{may_start}
use lowlatency_cpp.ThreadUtils.Starts.{wait-worker}
use lowlatency_cpp.ThreadDemo.{
  pinned, normal, invalid, Main, starts, Demo, after_wait, after_return, after_throw, set_thread,
}
use lowlatency_cpp.ThreadDemo.Invariant.{
  creator_of, is_finished, has_finished, Printed, KnowsAt, IsSound, Inv, returned-may_start,
  thrown-may_start,
}

module _ (set_affinity : ℕ → Bool) (current_cpu : ℕ) where
  -- What main knows where it stands.
  pub known : (s : Demo) (m : Main) → s.main ≡ m → Inv set_affinity current_cpu s → KnowsAt m s
  known s m e v = subst (λ o. KnowsAt o s) e v.knows

  -- A thread whose creator has made a step.
  waited :
      (core_id : Option ℕ) (o : Option Start) (t : Start)
      → o ≡ some t
      → IsSound set_affinity core_id o
      → let u = ThreadUtils.wait set_affinity t t.creator in
        Handshake.Inv set_affinity core_id u × (is_finished u.worker ≡ has_finished o)
  waited core_id o t e v = (
    Handshake.wait-Inv set_affinity core_id t t.creator refl
        (subst (IsSound set_affinity core_id) e v),
    ap is_finished (wait-worker set_affinity core_id t t.creator) ∙ sym (ap has_finished e),
  )

  not_made : (o : Option Start) → creator_of o ≡ none → has_finished o ≡ false
  not_made none e = refl
  not_made (some t) e = absurd (ground arith)

  pub starts_pinned-Inv :
      (s : Demo) (t : Start) (c : Creator)
      → s.main ≡ starts pinned
      → s.pinned_thread ≡ some t
      → Inv set_affinity current_cpu s
      → let u = ThreadUtils.wait set_affinity t t.creator in
        u.creator ≡ c → Inv set_affinity current_cpu (after_wait (set_thread s pinned u) pinned c)
  unfolding set_thread after_return after_throw ThreadUtils.start
  starts_pinned-Inv s t returned m e v f =
      let (sound, same) = waited (some current_cpu) s.pinned_thread t e v.pinned_sound in
      let u = ThreadUtils.wait set_affinity t t.creator in
      record {
        pinned_sound = sound;
        normal_sound = Handshake.start-Inv set_affinity none;
        invalid_sound = v.invalid_sound;
        knows = (ap some f, record {});
        shown =
            subst (λ b. Printed b false s.printed) (sym same)
              (subst (λ b. Printed (has_finished s.pinned_thread) b s.printed)
                (not_made s.normal_thread (known s (starts pinned) m v).1) v.shown);
      }
  starts_pinned-Inv s t thrown m e v f =
      let (sound, same) = waited (some current_cpu) s.pinned_thread t e v.pinned_sound in
      record {
        pinned_sound = sound;
        normal_sound = v.normal_sound;
        invalid_sound = v.invalid_sound;
        knows = ap some f;
        shown = subst (λ b. Printed b (has_finished s.normal_thread) s.printed) (sym same) v.shown;
      }
  starts_pinned-Inv s t c m e v f =
      let (sound, same) = waited (some current_cpu) s.pinned_thread t e v.pinned_sound in
      record {
        pinned_sound = sound;
        normal_sound = v.normal_sound;
        invalid_sound = v.invalid_sound;
        knows = rw m (record {}, (known s (starts pinned) m v).1);
        shown = subst (λ b. Printed b (has_finished s.normal_thread) s.printed) (sym same) v.shown;
      }

  pub starts_normal-Inv :
      (s : Demo) (t : Start) (c : Creator)
      → s.main ≡ starts normal
      → s.normal_thread ≡ some t
      → Inv set_affinity current_cpu s
      → let u = ThreadUtils.wait set_affinity t t.creator in
        u.creator ≡ c → Inv set_affinity current_cpu (after_wait (set_thread s normal u) normal c)
  unfolding set_thread after_return after_throw may_start
  starts_normal-Inv s t thrown m e v f =
      let (sound, same) = waited none s.normal_thread t e v.normal_sound in
      let may =
        thrown-may_start set_affinity none (ThreadUtils.wait set_affinity t t.creator) sound f in
      absurd (ground (arith, may))
  starts_normal-Inv s t returned m e v f =
      let (sound, same) = waited none s.normal_thread t e v.normal_sound in
      record {
        pinned_sound = v.pinned_sound;
        normal_sound = sound;
        invalid_sound = v.invalid_sound;
        knows = ((known s (starts normal) m v).0, ap some f);
        shown = subst (λ b. Printed (has_finished s.pinned_thread) b s.printed) (sym same) v.shown;
      }
  starts_normal-Inv s t c m e v f =
      let (sound, same) = waited none s.normal_thread t e v.normal_sound in
      record {
        pinned_sound = v.pinned_sound;
        normal_sound = sound;
        invalid_sound = v.invalid_sound;
        knows = rw m ((known s (starts normal) m v).0, record {});
        shown = subst (λ b. Printed (has_finished s.pinned_thread) b s.printed) (sym same) v.shown;
      }

  pub starts_invalid-Inv :
      (s : Demo) (t : Start) (c : Creator)
      → s.main ≡ starts invalid
      → s.invalid_thread ≡ some t
      → Inv set_affinity current_cpu s
      → let u = ThreadUtils.wait set_affinity t t.creator in
        u.creator ≡ c → Inv set_affinity current_cpu (after_wait (set_thread s invalid u) invalid c)
  unfolding set_thread after_return after_throw may_start set_thread_core
  starts_invalid-Inv s t returned m e v f =
      let (sound, _) = waited (some cpu_setsize) s.invalid_thread t e v.invalid_sound in
      let may =
        returned-may_start set_affinity (some cpu_setsize)
          (ThreadUtils.wait set_affinity t t.creator) sound f in
      absurd (ground (arith, may))
  starts_invalid-Inv s t thrown m e v f =
      let (sound, _) = waited (some cpu_setsize) s.invalid_thread t e v.invalid_sound in
      let (ret, first, second, _) = known s (starts invalid) m v in
      record {
        pinned_sound = v.pinned_sound;
        normal_sound = v.normal_sound;
        invalid_sound = sound;
        knows = (ret, first, second, refl);
        shown = v.shown;
      }
  starts_invalid-Inv s t c m e v f =
      let (sound, _) = waited (some cpu_setsize) s.invalid_thread t e v.invalid_sound in
      let (ret, first, second, _) = known s (starts invalid) m v in
      record {
        pinned_sound = v.pinned_sound;
        normal_sound = v.normal_sound;
        invalid_sound = sound;
        knows = rw m (ret, first, second, record {});
        shown = v.shown;
      }
