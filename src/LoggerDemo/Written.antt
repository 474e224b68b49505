-- ===== src/LoggerDemo/Written.antt =====
-- The file that src/logger_demo.cpp leaves.
use lowlatency_cpp.Base.{ℕ, ◌≡◌, refl, sym, ◌∙◌, ap, List, [], ◌∷◌, ◌++◌, Text, done, arith}
use lowlatency_cpp.Logger.{
  char, integer, unsigned_long_integer, float, double, LogElement, Ostream, log_all, write_all,
}
use lowlatency_cpp.Logger.Messages.{codes}
use lowlatency_cpp.Logger.Language.{WritesChars}
use lowlatency_cpp.Logger.Threads.{Logger, closed}
use lowlatency_cpp.Logger.Threads.Closed.{Reached, closed_elements}
use lowlatency_cpp.LoggerDemo.{calls, ratio, price}

push_bytes : Text → List LogElement → List LogElement
push_bytes [] es = es
push_bytes (c ∷ cs) es = record { kind = char; value = c } ∷ push_bytes cs es

-- The elements that the calls queue.
elements : List LogElement
unfolding push_bytes codes
elements = push_bytes (codes "char:A id:") (
    record { kind = integer; value = 42 }
    ∷ push_bytes (codes " quantity:") (
        record { kind = unsigned_long_integer; value = 500 }
        ∷ push_bytes (codes "\nratio:") (
            record { kind = float; value = ratio }
            ∷ push_bytes (codes " price:") (
                record { kind = double; value = price }
                ∷ push_bytes (codes "\nsymbol:AAPL\nmessage:order accepted\npercent example:100%\n")
                    []))))

calls_queue : log_all calls ≡ done elements
unfolding calls log_all elements
calls_queue = refl

-- The text of the file; the stream decides how it writes a number.
pub written : Ostream → Text
unfolding codes
written file =
    codes "char:A id:"
    ++ (file.put_int 42
        ++ (codes " quantity:"
            ++ (file.put_unsigned_long 500
                ++ (codes "\nratio:"
                    ++ (file.put_float ratio
                        ++ (codes " price:"
                            ++ (file.put_double price
                                ++ codes
                                    "\nsymbol:AAPL\nmessage:order accepted\npercent example:100%\n")))))))

write_all-elements : (file : Ostream) → WritesChars file → write_all file elements ≡ written file
unfolding written elements write_all
write_all-elements file chars = simp chars

done-elements : (es fs : List LogElement) → done es ≡ done fs → es ≡ fs
done-elements es fs e = ground arith

-- However the two threads of the logger interleave, when its destructor has returned, logger_demo.log
-- holds the five lines, in order and complete. A byte is written as it is.
closed_lem :
    {file : Ostream} {n : ℕ} {s : Logger}
    → WritesChars file
    → Reached file n calls s
    → s.owner ≡ closed
    → s.file ≡ written file
closed_lem {file = file} chars r e =
    closed_elements r e
    ∙ ap (write_all file) (done-elements r.elements elements (sym r.queued ∙ calls_queue))
    ∙ write_all-elements file chars
