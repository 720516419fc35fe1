-- ===== src/Actions/Rules.antt =====
-- faults/partitioners.py: what the commands that a partition starts do to the packet filters. A
-- command that fails does nothing.
use faultstorm.Prelude.{
  ℕ, ◌≡◌, refl, sym, ◌∙◌, ap, false, ◌&&◌, List, [], ◌∷◌, ◌++◌, map, ok, arith, ◌==◌, list_eq,
  nat_eq, if◌then◌else◌, is_empty,
}
use mathlib.Core.List.{append-nil, append_assoc}
use faultstorm.Text.{Text, codes, strip}
use faultstorm.Effects.{
  Event, ran, Outcome, completed, Env, World, Io, run, emit, ignore, for_each, map_each, ◌>>=◌,
  ◌>>◌, pure,
}
use faultstorm.Cluster.{
  container_name, exec_argv, exec_on_node, get_node_ip, inspect_argv, ip_format, as_runtime_error,
}
use faultstorm.Partitioners.{input, create_chain, add_drop_rules_by_src, drop_by}
use faultstorm.Actions.Sides.{block_side}

-- Docker works: each `docker inspect` for the address of a node is answered by one address, a line
-- that is not blank, and each command in a container succeeds.
pub record Works (env : Env) : Type 0 where
  pub address : Text → Text
  pub output : Text → List Text → Text
  pub executed :
      (node : Text) (command : List Text) (t : List Event)
      → env.answer t (exec_argv env node command) ≡ completed (output node command)
  pub inspected :
      (node : Text) (t : List Event)
      → env.answer t (inspect_argv env (ip_format env) node) ≡ completed (address node)
  pub trimmed : (node : Text) → is_empty (strip (address node)) ≡ false

-- What is added to the filters of a container: a chain, a jump from a built-in chain to a chain, or
-- the drop of the packets from a source address in a chain.
pub data Rule : Type 0 where
  chain_of : Text → Text → Rule
  jump_of : Text → Text → Text → Rule
  drop_of : Text → Text → Text → Rule

-- `iptables -N CHAIN`, `iptables -A FROM -j CHAIN` and `iptables -A CHAIN -s IP -j DROP` in the
-- container `c`.
abbrev of_options : Text → List Text → List Rule
of_options c (verb ∷ chain ∷ []) = if verb == codes "-N" then chain_of c chain ∷ [] else []
of_options c (verb ∷ from ∷ option ∷ chain ∷ []) =
    if verb == codes "-A" && option == codes "-j" then jump_of c from chain ∷ [] else []
of_options c (verb ∷ chain ∷ option ∷ ip ∷ jump ∷ target ∷ []) =
    if verb == codes "-A"
      && (option == codes "-s" && (jump == codes "-j" && target == codes "DROP"))
    then drop_of c chain ip ∷ []
    else []
of_options c _ = []

abbrev of_argv : List Text → List Rule
of_argv (docker ∷ exec ∷ c ∷ tool ∷ options) =
    if docker == codes "docker" && (exec == codes "exec" && tool == codes "iptables")
    then of_options c options
    else []
of_argv _ = []

abbrev of_outcome : Outcome → List Text → List Rule
of_outcome (completed out) argv = of_argv argv
of_outcome _ argv = []

-- What an event adds that stands behind the events `t`.
unfoldable pub rules_of : Env → List Event → Event → List Rule
rules_of env t (ran argv timeout) = of_outcome (env.answer t argv) argv
rules_of env t e = []

unfoldable pub rules_from : Env → List Event → List Event → List Rule
unfolding rules_of
rules_from env t [] = []
rules_from env t (e ∷ es) = rules_of env t e ++ rules_from env (t ++ e ∷ []) es

-- What the events have added to the filters, in order.
unfoldable pub rules : Env → List Event → List Rule
unfolding rules_from
rules env es = rules_from env [] es

rules_from-append :
    (env : Env) (t es fs : List Event)
    → rules_from env t (es ++ fs) ≡ rules_from env t es ++ rules_from env (t ++ es) fs
unfolding rules_from
rules_from-append env t [] fs = ap (λ l. rules_from env l fs) (sym (append-nil t))
rules_from-append env t (e ∷ es) fs =
    rw (rules_from-append env (t ++ e ∷ []) es fs, append_assoc t (e ∷ []) es)
      (sym (append_assoc (rules_of env t e) (rules_from env (t ++ e ∷ []) es) _))

rules-snoc :
    (env : Env) (es : List Event) (e : Event)
    → rules env (es ++ e ∷ []) ≡ rules env es ++ rules_of env es e
unfolding rules
rules-snoc env es e =
    rules_from-append env [] es (e ∷ [])
    ∙ ap (λ l. rules_from env [] es ++ l) (append-nil (rules_of env es e))

module _ (env : Env) where
  -- `m` ends without an exception, and adds exactly the rules `rs`.
  pub record Blocks {A : Type 0} (m : Io A) (a : A) (rs : List Rule) : Type 0 where
    pub returns : (w : World) → (m w).0 ≡ ok a
    pub adds : (w : World) → rules env (m w).1.trace ≡ rules env w.trace ++ rs

  pub Blocks-seq :
      {A B : Type 0} (m : Io A) (k : A → Io B) (a : A) (b : B) (rs ss : List Rule)
      → Blocks m a rs
      → Blocks (k a) b ss
      → Blocks (m >>= k) b (rs ++ ss)
  Blocks-seq m k a b rs ss hm hk = record {
    returns = λ w. rw (hm.returns w) (hk.returns (m w).1);
    adds = λ w.
        rw (hm.returns w) (
          hk.adds (m w).1 ∙ ap (λ l. l ++ ss) (hm.adds w) ∙ append_assoc (rules env w.trace) rs ss);
  }

  pub Blocks-pure : {A : Type 0} (a : A) → Blocks (pure a) a []
  Blocks-pure a = record { returns = λ w. refl; adds = λ w. sym (append-nil (rules env w.trace)) }

  Blocks-ignore :
      {A : Type 0} (m : Io A) (a : A) (rs : List Rule) → Blocks m a rs → Blocks (ignore m) tt rs
  unfolding ignore
  Blocks-ignore m a rs h = record { returns = λ w. refl; adds = h.adds }

  abbrev pub rule : Text → Text → Text → Rule
  rule node chain ip = drop_of (container_name env node) chain ip

  -- A new chain, and the jump to it from INPUT.
  abbrev pub linked : Text → Text → List Rule
  linked node chain =
      chain_of (container_name env node) chain ∷ jump_of (container_name env node) input chain ∷ []

  module _ (works : Works env) where
    open works use {address, output, executed, inspected, trimmed}

    exec-Blocks :
        (node : Text) (command : List Text) (timeout : ℕ)
        → Blocks
            (exec_on_node env node command timeout)
            (output node command)
            (of_argv (exec_argv env node command))
    unfolding exec_on_node run emit rules_of
    exec-Blocks node command timeout = record {
      returns = λ w. rw (executed node command w.trace) refl;
      adds = λ w.
          rules-snoc env w.trace (ran (exec_argv env node command) timeout)
          ∙ rw (executed node command w.trace) refl;
    }

    pub create_chain-Blocks :
        (node chain : Text) → Blocks (create_chain env node chain) tt (linked node chain)
    unfolding create_chain
    create_chain-Blocks node chain = Blocks-ignore _ _ (linked node chain) (
        Blocks-seq _ (λ _. exec_on_node env node _ 10) _ _
          (chain_of (container_name env node) chain ∷ [])
          (jump_of (container_name env node) input chain ∷ []) (exec-Blocks node _ 10)
          (exec-Blocks node _ 10))

    drop_by-Blocks :
        (node chain ip : Text)
        → Blocks
            (ignore (exec_on_node env node (drop_by (codes "-s") chain ip) 10))
            tt
            (rule node chain ip ∷ [])
    drop_by-Blocks node chain ip =
        Blocks-ignore _ _ _ (exec-Blocks node (drop_by (codes "-s") chain ip) 10)

    pub add_drop_rules_by_src-Blocks :
        (node chain : Text) (ips : List Text)
        → Blocks (add_drop_rules_by_src env node chain ips) tt (map (rule node chain) ips)
    unfolding add_drop_rules_by_src
    add_drop_rules_by_src-Blocks node chain [] = Blocks-pure tt
    add_drop_rules_by_src-Blocks node chain (ip ∷ ips) =
        Blocks-seq _ (λ _. add_drop_rules_by_src env node chain ips) tt tt (rule node chain ip ∷ [])
          (map (rule node chain) ips) (drop_by-Blocks node chain ip)
          (add_drop_rules_by_src-Blocks node chain ips)

    -- The packets of `blocked` do not reach `node`, by a new chain.
    abbrev pub shut : Text → Text → List Text → List Rule
    shut chain node blocked =
        linked node chain ++ map (rule node chain) (map (λ n. strip (address n)) blocked)

    pub shut-Blocks :
        (chain node : Text) (blocked : List Text)
        → Blocks
            (create_chain env node chain
              >> add_drop_rules_by_src env node chain (map (λ n. strip (address n)) blocked))
            tt
            (shut chain node blocked)
    shut-Blocks chain node blocked =
        let ips = map (λ n. strip (address n)) blocked in
        Blocks-seq (create_chain env node chain) (λ _. add_drop_rules_by_src env node chain ips) tt
          tt (linked node chain) (map (rule node chain) ips) (create_chain-Blocks node chain)
          (add_drop_rules_by_src-Blocks node chain ips)

    abbrev pub ip_of : Text → Text
    ip_of node = strip (address node)

    get_node_ip-Blocks : (node : Text) → Blocks (get_node_ip env node) (ip_of node) []
    unfolding get_node_ip run emit rules_of as_runtime_error
    get_node_ip-Blocks node = record {
      returns = λ w. ground (arith, inspected node w.trace, trimmed node);
      adds = λ w.
          let snoc = rules-snoc env w.trace (ran (inspect_argv env (ip_format env) node) 10) in
          ground (arith, inspected node w.trace, trimmed node, snoc);
    }

    pub map_each-Blocks :
        (nodes : List Text) → Blocks (map_each nodes (get_node_ip env)) (map ip_of nodes) []
    unfolding map_each
    map_each-Blocks [] = Blocks-pure []
    map_each-Blocks (n ∷ ns) =
        Blocks-seq (get_node_ip env n) _ (ip_of n) (map ip_of (n ∷ ns)) [] [] (get_node_ip-Blocks n)
          (Blocks-seq (map_each ns (get_node_ip env)) _ (map ip_of ns) (map ip_of (n ∷ ns)) [] []
            (map_each-Blocks ns) (Blocks-pure _))

    -- The packets of `blocked` do not reach `nodes`.
    abbrev pub one_way : Text → List Text → List Text → List Rule
    one_way chain [] blocked = []
    one_way chain (n ∷ ns) blocked = shut chain n blocked ++ one_way chain ns blocked

    nodes-Blocks :
        (chain : Text) (ns blocked : List Text)
        → Blocks
            (for_each ns λ node.
              create_chain env node chain
              >> add_drop_rules_by_src env node chain (map ip_of blocked))
            tt
            (one_way chain ns blocked)
    unfolding for_each
    nodes-Blocks chain [] blocked = Blocks-pure tt
    nodes-Blocks chain (n ∷ ns) blocked =
        Blocks-seq
          (create_chain env n chain >> add_drop_rules_by_src env n chain (map ip_of blocked))
          (λ _. for_each ns _) tt tt (shut chain n blocked) (one_way chain ns blocked)
          (shut-Blocks chain n blocked) (nodes-Blocks chain ns blocked)

    pub block_side-Blocks :
        (chain : Text) (nodes blocked : List Text)
        → Blocks (block_side env chain nodes blocked) tt (one_way chain nodes blocked)
    unfolding block_side
    block_side-Blocks chain nodes blocked =
        Blocks-seq (map_each blocked (get_node_ip env)) _ (map ip_of blocked) tt []
          (one_way chain nodes blocked) (map_each-Blocks blocked) (nodes-Blocks chain nodes blocked)
