-- ===== src/Driver/Routes.antt =====
-- pkg/driver/driver.go: the executors that a run can reach.
use bonk.Base.{ℕ, String, List, [], ◌∷◌, Option, none, some, All, ◌≡◌, refl, sym}
use bonk.Base.Text.{append, NoSep}
use bonk.Errors.{Error, Outcome, append_error, append_error-none}
use bonk.Task.Value.{Session}
use bonk.Executor.{Executor}
use bonk.Router.{
  Tree, leaf, Children, get, new, Registered, registered, refused, panicked, unfinished,
  register_executor,
}
use bonk.Router.Entries.{get-set_self}
use bonk.Router.Route.{route}
use bonk.Router.Plain.{
  IsFlat, register_plain, set-IsFlat, new-IsFlat, Within, set-Within, route_below,
}
use bonk.Plugin.Starting.{Started, started, crashed, out_of_fuel, start_plugins}
use bonk.Plugin.Routes.{Holds, Reaches, start_plugins-Held, All-Reaches}
use bonk.Statecheck.{Host}
use bonk.Driver.{
  Options, built, register_executors, wrap_executors, after_registration, after_plugins, build,
}

-- An executor that is no router, under a name without a separator.
abbrev pub IsPlain : {W : Type 0} → String × Tree (Executor W) → Type 0
IsPlain {W} (name, t) = NoSep name × (e : Executor W) × (t ≡ leaf e)

module _ {W H : Type 0} (hosts : Session → Host W H)
    (new_plugin_client : String → W → Outcome (Executor W) × W) (base : String → String)
    (observe : List ℕ → Executor W → Executor W) where
  abbrev registers :
      List (String × Tree (Executor W))
      → Option Error
      → Children (Executor W)
      → Option Error × Registered (Executor W)
  registers execs err cs = register_executors hosts new_plugin_client base observe execs err cs

  -- The errors of registrations are kept.
  registers_next :
      (name : String) (t : Tree (Executor W)) (rest : List (String × Tree (Executor W)))
      (err : Option Error) (cs cs' : Children (Executor W)) (r : Registered (Executor W))
      → register_executor cs name t ≡ r
      → ((e : Option Error) (mid : Children (Executor W))
          → registers rest e mid ≡ (none, registered cs')
          → e ≡ none)
      → registers ((name, t) ∷ rest) err cs ≡ (none, registered cs')
      → (err ≡ none)
        × (mid : Children (Executor W)) × (r ≡ registered mid)
        × (registers rest none mid ≡ (none, registered cs'))
  registers_next name t rest err cs cs' (registered mid) q fine h =
      let h' : registers rest err mid ≡ (none, registered cs') = rw (q, register_executors) at h in
      let none_before = fine err mid h' in (none_before, mid, refl, rw none_before at h')
  registers_next name t rest err cs cs' (refused e mid) q fine h =
      let h' : registers rest (append_error err (some e)) mid ≡ (none, registered cs') =
        rw (q, register_executors) at h in
      let both = fine (append_error err (some e)) mid h' in
      let bad = (append_error-none err (some e) both).1 in absurd cc
  registers_next name t rest err cs cs' (panicked e) q fine h =
      let h' = rw (q, register_executors) at h in absurd cc
  registers_next name t rest err cs cs' unfinished q fine h =
      let h' = rw (q, register_executors) at h in absurd cc

  registers-none :
      (execs : List (String × Tree (Executor W))) (err : Option Error)
      (cs cs' : Children (Executor W))
      → registers execs err cs ≡ (none, registered cs')
      → err ≡ none
  registers-none [] err cs cs' h = cc
  registers-none ((name, t) ∷ rest) err cs cs' h =
      (registers_next name t rest err cs cs' _ refl (λ e mid k. registers-none rest e mid cs' k)
        h).0

  -- The executor is in the router under its name.
  abbrev Kept : Children (Executor W) → String × Tree (Executor W) → Type 0
  Kept cs (name, t) = (e : Executor W) × (t ≡ leaf e) × (get name cs ≡ some (leaf e))

  registers-Kept :
      (execs : List (String × Tree (Executor W))) (cs cs' : Children (Executor W))
      → All IsPlain execs
      → IsFlat cs
      → registers execs none cs ≡ (none, registered cs')
      → All (Kept cs') execs × Within cs cs'
  registers-Kept [] cs cs' plain flat h = let same : cs ≡ cs' = cc in (tt, λ k e g. rw (sym same) g)
  registers-Kept ((name, t) ∷ rest) cs cs' ((nosep, e, is_leaf), plain) flat h =
      let (_, mid, q, h') =
        registers_next name t rest none cs cs' _ refl (λ x m k. registers-none rest x m cs' k) h in
      let (free, is) = register_plain cs mid name e (rw is_leaf at q) nosep flat in
      let (kept, within) =
        registers-Kept rest mid cs' plain (rw is (set-IsFlat name e cs flat)) h' in
      let here : get name mid ≡ some (leaf e) = rw is (get-set_self name (leaf e) cs) in
      (
        ((e, is_leaf, within name e here), kept),
        λ k d g. within k d (rw is (set-Within name e cs free k d g)),
      )

  -- What a build comes from.
  abbrev From : Options W → Executor W → W → Type 0
  From opts exec w =
      (mid : Children (Executor W)) × (cs : Children (Executor W)) × (v : W) × (start_plugins
          new_plugin_client base opts.plugins none new w
        ≡ started none mid v)
      × (registers opts.executors none mid ≡ (none, registered cs))
      × (exec ≡ wrap_executors hosts new_plugin_client base observe opts cs)

  registration-From :
      (opts : Options W) (exec : Executor W) (w v w' : W) (mid : Children (Executor W))
      (r : Option Error × Registered (Executor W))
      → start_plugins new_plugin_client base opts.plugins none new w ≡ started none mid v
      → registers opts.executors none mid ≡ r
      → after_registration hosts new_plugin_client base observe opts r v ≡ built exec w'
      → From opts exec w
  registration-From opts exec w v w' mid (none, registered cs) s e h = (mid, cs, v, s, e, cc)
  registration-From opts exec w v w' mid (some x, registered cs) s e h = absurd cc
  registration-From opts exec w v w' mid (none, refused x cs) s e h = absurd cc
  registration-From opts exec w v w' mid (some y, refused x cs) s e h = absurd cc
  registration-From opts exec w v w' mid (none, panicked x) s e h = absurd cc
  registration-From opts exec w v w' mid (some y, panicked x) s e h = absurd cc
  registration-From opts exec w v w' mid (none, unfinished) s e h = absurd cc
  registration-From opts exec w v w' mid (some y, unfinished) s e h = absurd cc

  start-From :
      (opts : Options W) (exec : Executor W) (w w' : W) (s : Started W)
      → start_plugins new_plugin_client base opts.plugins none new w ≡ s
      → after_plugins hosts new_plugin_client base observe opts s ≡ built exec w'
      → From opts exec w
  start-From opts exec w w' (started none mid v) s h =
      registration-From opts exec w v w' mid _ s refl h
  start-From opts exec w w' (started (some e) mid v) s h = absurd cc
  start-From opts exec w w' (crashed e) s h = absurd cc
  start-From opts exec w w' out_of_fuel s h = absurd cc

  build-From :
      (opts : Options W) (exec : Executor W) (w w' : W)
      → build hosts new_plugin_client base observe opts w ≡ built exec w'
      → From opts exec w
  unfolding build
  build-From opts exec w w' h = start-From opts exec w w' _ refl h

  -- Every name below an executor's name leads to it, with the rest of the name.
  abbrev pub Leads : Children (Executor W) → String × Tree (Executor W) → Type 0
  Leads cs (name, t) =
      (e : Executor W) × (t ≡ leaf e)
      × ((rest : String) → route cs (append name (append "." rest)) ≡ some (e, rest))

  All-Leads :
      (cs : Children (Executor W)) (execs : List (String × Tree (Executor W)))
      → All IsPlain execs
      → All (Kept cs) execs
      → All (Leads cs) execs
  All-Leads cs [] plain kept = tt
  All-Leads cs ((name, t) ∷ rest) ((nosep, _, _), plain) ((e, is, found), kept) =
      ((e, is, λ q. route_below cs name q e nosep found), All-Leads cs rest plain kept)

  held_later :
      (cs cs' : Children (Executor W)) (paths : List String)
      → Within cs cs'
      → All (Holds new_plugin_client base cs) paths
      → All (Holds new_plugin_client base cs') paths
  held_later cs cs' [] within held = tt
  held_later cs cs' (path ∷ paths) within ((plug, made, found), held) =
      ((plug, made, within (base path) plug found), held_later cs cs' paths within held)

  -- Let the last parts of the plugins' paths and the names of the executors have no separator, and
  -- let no executor be a router. Where a run comes to its tasks, its executor wraps a router in which
  -- every name below the last part of a plugin's path leads to a client of the plugin, and every name
  -- below that of an executor leads to the executor, with the rest of the name.
  pub build-Reaches :
      (opts : Options W) (exec : Executor W) (w w' : W)
      → All (λ path. NoSep (base path)) opts.plugins
      → All IsPlain opts.executors
      → build hosts new_plugin_client base observe opts w ≡ built exec w'
      → (cs : Children (Executor W)) × (exec
          ≡ wrap_executors hosts new_plugin_client base observe opts cs)
        × All (Reaches new_plugin_client base cs) opts.plugins
        × All (Leads cs) opts.executors
  build-Reaches opts exec w w' paths names h =
      let (mid, cs, v, starts, regs, is) = build-From opts exec w w' h in
      let (held, _, flat) =
        start_plugins-Held new_plugin_client base opts.plugins none new mid w v paths new-IsFlat
          starts in
      let (kept, within) = registers-Kept opts.executors mid cs names flat regs in
      (
        cs,
        is,
        All-Reaches new_plugin_client base cs opts.plugins paths
            (held_later mid cs opts.plugins within held),
        All-Leads cs opts.executors names kept,
      )
