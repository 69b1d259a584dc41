-- ===== src/Lib.antt =====
-- RepCRec: a simulation of a distributed database with replicated variables, two-phase locking by
-- available copies, multiversion reads for read-only transactions, deadlock detection, and failure
-- and recovery of sites.
--
-- The program reads one instruction a line. `execute_advanced_database` (main.cpp) gives each to the
-- transaction manager (`add_instruction`), which makes a request of it, and lets it run
-- (`execute_instructions`): deadlocks are broken first by aborting the youngest transaction, the new
-- request is run or put off, and the requests of transactions that wait no longer are run again. A
-- request (repcrec/request) asks the lock manager for locks, reads and writes the copies of a
-- variable at the sites, and blocks its transaction or changes it. A transaction keeps what it wrote
-- until its commit, which installs it at the sites.
--
--   Base                 the library's names, integers (Base/Int), maps and sets (Base/Maps), results
--                        and the actions on a state (Base/Outcome), truth values (Base/Logic)
--   Global               repcrec/global.h
--   Variable             repcrec/variable/variable.{h,cc}: Versions and, by a plain history of commits,
--                        Timeline
--   Site                 repcrec/site/site.{h,cc}; the text of a dumped row in Site/Print
--   SiteManager          repcrec/site_manager/site_manager.{h,cc}: Copies (one variable at one site)
--                        and Placement (which variables stand where); the text of a dump in Print
--   Transaction          the state of repcrec/transaction/transaction.{h,cc}; `commit` is in
--                        TransactionManager/Commit
--   LockManager          repcrec/lock_manager/lock_manager.{h,cc}: Acquire (`try_acquire_write_lock`
--                        and `try_acquire_read_lock`), Assign, Release, Deadlock; the invariant of
--                        the locks in Hold
--   Instruction          repcrec/instruction/instruction.{h,cc}; the text in Instruction/Text and
--                        Instruction/Parse; instructions as text, for the round trip, in
--                        Instruction/Print
--   Request              repcrec/request/request.{h,cc}: the data and the printed lines; the `exec`
--                        methods in Request/Write, Request/Read and Request/Exec
--   TransactionManager   repcrec/transaction_manager/transaction_manager.{h,cc}: Instruct
--                        (`add_instruction`), Execute (`execute_instructions`) and Commit; Triple
--                        (an action that takes one property of the state to another), Inv (what
--                        every action does to the invariant of the locks, small operations first),
--                        Deadlocks (the loop that breaks them), Roll (the set by age beside the map of
--                        the transactions; Roll/Reach has the states that requests reach)
--   Driver               `execute_advanced_database` of main.cpp; Driver/Locks starts from the first
--                        state. Driver/Check is `execute_test_case_check`, on the contents of files,
--                        and Driver/Main is `main`, from the input files to the score
--   Tests                concrete states, and each theorem applied at one; Tests/Program runs test
--                        cases of the repository
--
-- How the code is written here. Ids, values and times are integers without a bound. A
-- `std::unordered_map` and a `std::unordered_set` are lists in the order of iteration, where a new
-- key stands in front; a `std::map` and a `std::set` are sorted lists. The owners of locks and the
-- members of the sets of transactions are ids, since only the id is ever read of them; a shared
-- pointer to a copy of a variable is the copy at its site in the site manager. The singletons are one
-- state, the record TransactionManager, which an Action passes on. What is printed is put in front of
-- its field `log` with the time of printing. An exception is a result `err`, and so is what the
-- language leaves undefined, such as following a null pointer or the entry before the first one. A
-- field that a constructor leaves uninitialised is an argument of the parser.
--
-- Loops. The depth-first search for a deadlock runs on fuel, one more than the number of entries of
-- the wait-for graph, which is enough. The loop that breaks deadlocks runs on fuel, one more than
-- the number of transactions, which is enough in the states that TransactionManager/Roll/Reach
-- describes. The reading of a file and the comparison of two run on fuel, one more than the length
-- of the first file, which is enough.
-- The loop that lets the clock run when the input has ended takes its fuel as an argument, since
-- the source does not end it for every input.
--
-- The files. A file is its text or absent, the listing of the input directory is a list, and the
-- process that `main` starts for an input is its run from the first state. A run that ends with an
-- exception leaves a text in its output file that is a parameter, since it depends on the buffer of
-- the stream; of a run with undefined behaviour the model says nothing further, also where it is the
-- process of one input among others. Texts are lists of the codes of characters.
--
-- Not modelled: what the simulation prints besides dumps is kept as data and has no text.
pub mod Base
pub mod Global
pub mod Variable
pub mod Site
pub mod SiteManager
pub mod Transaction
pub mod LockManager
pub mod Instruction
pub mod Request
pub mod TransactionManager
pub mod Driver
pub mod Tests
