-- ===== src/Tests/Program/Test3_5.antt =====
-- A test case of the repository: its input and the output that is expected.
use rep_crec.Base.{[], ◌∷◌, List, ◌++◌}
use rep_crec.Instruction.Text.{Text, codes}

-- test/input/Test3.5
abbrev pub input_3_5 : List Text
input_3_5 =
    codes "begin(T1)"
    ∷ codes "begin(T2)"
    ∷ codes "R(T1,x3)"
    ∷ codes "W(T2,x8,88)"
    ∷ codes "fail(2)"
    ∷ codes "R(T2,x3)"
    ∷ codes "W(T1,x4,91)"
    ∷ codes "recover(2)"
    ∷ codes "end(T2)"
    ∷ codes "end(T1)"
    ∷ []

-- test/output/Test3.5
abbrev pub output_3_5 : List Text
output_3_5 =
    (codes "====================================================")
    ∷ (codes "site 1 -          "
        ++ (9 ∷ codes "x 2:   20"
            ++ (9 ∷ codes "         "
                ++ (9 ∷ codes "x 4:   91"
                    ++ (9 ∷ codes "         "
                        ++ (9 ∷ codes "x 6:   60"
                            ++ (9 ∷ codes "         "
                                ++ (9 ∷ codes "x 8:   80"
                                    ++ (9 ∷ codes "         "
                                        ++ (9 ∷ codes "x10:  100"
                                            ++ (9 ∷ codes "         "
                                                ++ (9 ∷ codes "x12:  120"
                                                    ++ (9 ∷ codes "         "
                                                        ++ (9 ∷ codes "x14:  140"
                                                            ++ (9 ∷ codes "         "
                                                            ++ (9 ∷ codes "x16:  160"
                                                            ++ (9 ∷ codes "         "
                                                            ++ (9 ∷ codes "x18:  180"
                                                            ++ (9 ∷ codes "         "
                                                            ++ (9
                                                            ∷ codes "x20:  200"))))))))))))))))))))
    ∷ (codes "site 2 - x 1:   10"
        ++ (9 ∷ codes "x 2:   20"
            ++ (9 ∷ codes "         "
                ++ (9 ∷ codes "x 4:   40"
                    ++ (9 ∷ codes "         "
                        ++ (9 ∷ codes "x 6:   60"
                            ++ (9 ∷ codes "         "
                                ++ (9 ∷ codes "x 8:   80"
                                    ++ (9 ∷ codes "         "
                                        ++ (9 ∷ codes "x10:  100"
                                            ++ (9 ∷ codes "x11:  110"
                                                ++ (9 ∷ codes "x12:  120"
                                                    ++ (9 ∷ codes "         "
                                                        ++ (9 ∷ codes "x14:  140"
                                                            ++ (9 ∷ codes "         "
                                                            ++ (9 ∷ codes "x16:  160"
                                                            ++ (9 ∷ codes "         "
                                                            ++ (9 ∷ codes "x18:  180"
                                                            ++ (9 ∷ codes "         "
                                                            ++ (9
                                                            ∷ codes "x20:  200"))))))))))))))))))))
    ∷ (codes "site 3 -          "
        ++ (9 ∷ codes "x 2:   20"
            ++ (9 ∷ codes "         "
                ++ (9 ∷ codes "x 4:   91"
                    ++ (9 ∷ codes "         "
                        ++ (9 ∷ codes "x 6:   60"
                            ++ (9 ∷ codes "         "
                                ++ (9 ∷ codes "x 8:   80"
                                    ++ (9 ∷ codes "         "
                                        ++ (9 ∷ codes "x10:  100"
                                            ++ (9 ∷ codes "         "
                                                ++ (9 ∷ codes "x12:  120"
                                                    ++ (9 ∷ codes "         "
                                                        ++ (9 ∷ codes "x14:  140"
                                                            ++ (9 ∷ codes "         "
                                                            ++ (9 ∷ codes "x16:  160"
                                                            ++ (9 ∷ codes "         "
                                                            ++ (9 ∷ codes "x18:  180"
                                                            ++ (9 ∷ codes "         "
                                                            ++ (9
                                                            ∷ codes "x20:  200"))))))))))))))))))))
    ∷ (codes "site 4 -          "
        ++ (9 ∷ codes "x 2:   20"
            ++ (9 ∷ codes "x 3:   30"
                ++ (9 ∷ codes "x 4:   91"
                    ++ (9 ∷ codes "         "
                        ++ (9 ∷ codes "x 6:   60"
                            ++ (9 ∷ codes "         "
                                ++ (9 ∷ codes "x 8:   80"
                                    ++ (9 ∷ codes "         "
                                        ++ (9 ∷ codes "x10:  100"
                                            ++ (9 ∷ codes "         "
                                                ++ (9 ∷ codes "x12:  120"
                                                    ++ (9 ∷ codes "x13:  130"
                                                        ++ (9 ∷ codes "x14:  140"
                                                            ++ (9 ∷ codes "         "
                                                            ++ (9 ∷ codes "x16:  160"
                                                            ++ (9 ∷ codes "         "
                                                            ++ (9 ∷ codes "x18:  180"
                                                            ++ (9 ∷ codes "         "
                                                            ++ (9
                                                            ∷ codes "x20:  200"))))))))))))))))))))
    ∷ (codes "site 5 -          "
        ++ (9 ∷ codes "x 2:   20"
            ++ (9 ∷ codes "         "
                ++ (9 ∷ codes "x 4:   91"
                    ++ (9 ∷ codes "         "
                        ++ (9 ∷ codes "x 6:   60"
                            ++ (9 ∷ codes "         "
                                ++ (9 ∷ codes "x 8:   80"
                                    ++ (9 ∷ codes "         "
                                        ++ (9 ∷ codes "x10:  100"
                                            ++ (9 ∷ codes "         "
                                                ++ (9 ∷ codes "x12:  120"
                                                    ++ (9 ∷ codes "         "
                                                        ++ (9 ∷ codes "x14:  140"
                                                            ++ (9 ∷ codes "         "
                                                            ++ (9 ∷ codes "x16:  160"
                                                            ++ (9 ∷ codes "         "
                                                            ++ (9 ∷ codes "x18:  180"
                                                            ++ (9 ∷ codes "         "
                                                            ++ (9
                                                            ∷ codes "x20:  200"))))))))))))))))))))
    ∷ (codes "site 6 -          "
        ++ (9 ∷ codes "x 2:   20"
            ++ (9 ∷ codes "         "
                ++ (9 ∷ codes "x 4:   91"
                    ++ (9 ∷ codes "x 5:   50"
                        ++ (9 ∷ codes "x 6:   60"
                            ++ (9 ∷ codes "         "
                                ++ (9 ∷ codes "x 8:   80"
                                    ++ (9 ∷ codes "         "
                                        ++ (9 ∷ codes "x10:  100"
                                            ++ (9 ∷ codes "         "
                                                ++ (9 ∷ codes "x12:  120"
                                                    ++ (9 ∷ codes "         "
                                                        ++ (9 ∷ codes "x14:  140"
                                                            ++ (9 ∷ codes "x15:  150"
                                                            ++ (9 ∷ codes "x16:  160"
                                                            ++ (9 ∷ codes "         "
                                                            ++ (9 ∷ codes "x18:  180"
                                                            ++ (9 ∷ codes "         "
                                                            ++ (9
                                                            ∷ codes "x20:  200"))))))))))))))))))))
    ∷ (codes "site 7 -          "
        ++ (9 ∷ codes "x 2:   20"
            ++ (9 ∷ codes "         "
                ++ (9 ∷ codes "x 4:   91"
                    ++ (9 ∷ codes "         "
                        ++ (9 ∷ codes "x 6:   60"
                            ++ (9 ∷ codes "         "
                                ++ (9 ∷ codes "x 8:   80"
                                    ++ (9 ∷ codes "         "
                                        ++ (9 ∷ codes "x10:  100"
                                            ++ (9 ∷ codes "         "
                                                ++ (9 ∷ codes "x12:  120"
                                                    ++ (9 ∷ codes "         "
                                                        ++ (9 ∷ codes "x14:  140"
                                                            ++ (9 ∷ codes "         "
                                                            ++ (9 ∷ codes "x16:  160"
                                                            ++ (9 ∷ codes "         "
                                                            ++ (9 ∷ codes "x18:  180"
                                                            ++ (9 ∷ codes "         "
                                                            ++ (9
                                                            ∷ codes "x20:  200"))))))))))))))))))))
    ∷ (codes "site 8 -          "
        ++ (9 ∷ codes "x 2:   20"
            ++ (9 ∷ codes "         "
                ++ (9 ∷ codes "x 4:   91"
                    ++ (9 ∷ codes "         "
                        ++ (9 ∷ codes "x 6:   60"
                            ++ (9 ∷ codes "x 7:   70"
                                ++ (9 ∷ codes "x 8:   80"
                                    ++ (9 ∷ codes "         "
                                        ++ (9 ∷ codes "x10:  100"
                                            ++ (9 ∷ codes "         "
                                                ++ (9 ∷ codes "x12:  120"
                                                    ++ (9 ∷ codes "         "
                                                        ++ (9 ∷ codes "x14:  140"
                                                            ++ (9 ∷ codes "         "
                                                            ++ (9 ∷ codes "x16:  160"
                                                            ++ (9 ∷ codes "x17:  170"
                                                            ++ (9 ∷ codes "x18:  180"
                                                            ++ (9 ∷ codes "         "
                                                            ++ (9
                                                            ∷ codes "x20:  200"))))))))))))))))))))
    ∷ (codes "site 9 -          "
        ++ (9 ∷ codes "x 2:   20"
            ++ (9 ∷ codes "         "
                ++ (9 ∷ codes "x 4:   91"
                    ++ (9 ∷ codes "         "
                        ++ (9 ∷ codes "x 6:   60"
                            ++ (9 ∷ codes "         "
                                ++ (9 ∷ codes "x 8:   80"
                                    ++ (9 ∷ codes "         "
                                        ++ (9 ∷ codes "x10:  100"
                                            ++ (9 ∷ codes "         "
                                                ++ (9 ∷ codes "x12:  120"
                                                    ++ (9 ∷ codes "         "
                                                        ++ (9 ∷ codes "x14:  140"
                                                            ++ (9 ∷ codes "         "
                                                            ++ (9 ∷ codes "x16:  160"
                                                            ++ (9 ∷ codes "         "
                                                            ++ (9 ∷ codes "x18:  180"
                                                            ++ (9 ∷ codes "         "
                                                            ++ (9
                                                            ∷ codes "x20:  200"))))))))))))))))))))
    ∷ (codes "site10 -          "
        ++ (9 ∷ codes "x 2:   20"
            ++ (9 ∷ codes "         "
                ++ (9 ∷ codes "x 4:   91"
                    ++ (9 ∷ codes "         "
                        ++ (9 ∷ codes "x 6:   60"
                            ++ (9 ∷ codes "         "
                                ++ (9 ∷ codes "x 8:   80"
                                    ++ (9 ∷ codes "x 9:   90"
                                        ++ (9 ∷ codes "x10:  100"
                                            ++ (9 ∷ codes "         "
                                                ++ (9 ∷ codes "x12:  120"
                                                    ++ (9 ∷ codes "         "
                                                        ++ (9 ∷ codes "x14:  140"
                                                            ++ (9 ∷ codes "         "
                                                            ++ (9 ∷ codes "x16:  160"
                                                            ++ (9 ∷ codes "         "
                                                            ++ (9 ∷ codes "x18:  180"
                                                            ++ (9 ∷ codes "x19:  190"
                                                            ++ (9
                                                            ∷ codes "x20:  200"))))))))))))))))))))
    ∷ (codes "====================================================")
    ∷ []
